-- ===== src/Lib.antt =====
-- COFFEE, "COmpany eFFEEctive platform", is a set of C++ libraries for services: this is a model of
-- its own logic, with the theorems that make it correct.
--
-- The parts, and how they meet:
-- * coffee.balance shares requests among resources (a database connection is one). A ResourceList
--   keeps the resources; a strategy picks one. Balance/ResourceList, Balance/Search (the loop that
--   two strategies share), Balance/Indexed, Balance/RoundRobin, Balance/ByRange model the files of
--   source/src/balance of those names.
-- * coffee.dbms is the interface to databases. Dbms/Statement and Dbms/Connection model
--   source/src/dbms/Statement.cc and Connection.cc, Dbms/Guard the two guards that lock a connection
--   and a statement, Dbms/Driver the virtual methods that a concrete database implements, and
--   ResultCode.cc. Connection::execute is cut where it may throw or return: `execute`, `prepared`,
--   `executed`, `check_lost`, `judge`, `count_commit`, `fail_statement`.
-- * coffee.time notifies events after a time. Time/Service models source/src/time/TimeService.cc;
--   Time/Agenda is the abstract view of its wheel, Time/Quanta about its size, Time/Unlinking about
--   what a cancellation takes out, Time/Invariant about its invariant, Time/Restart about building and
--   stopping a service, Time/Cancelling about cancelling what was activated, Time/Single about the
--   nodes of one event, Time/Delivery about histories of activations, cancellations and ticks.
-- * coffee.app is an application and its services, which may require each other. App/Runnable models
--   the status flags of source/include/coffee/app/Runnable.hpp, App/Service the requirements,
--   `Service::initialize` (source/src/app/Service.cc) and `Application::select`, App/Application the
--   other methods of source/src/app/Application.cc that act on services. App/Initialize,
--   App/Writes, App/Requirements, App/Counting, App/Termination, App/Services and App/Registry prove
--   what they do.
-- * coffee.http reads and writes HTTP messages. Http/Bytes models the cutting of texts of
--   source/src/http/protocol/defines.cc, over lists of bytes, Http/Message the headers of
--   source/src/http/HttpMessage.cc and HttpHeader.cc, Http/Decoder HttpProtocolDecoder.cc and the four
--   states of source/src/http/protocol/state. Http/Tokens is about the decoder's lines, Http/Headers
--   about a message's headers, Http/Bodies about what the decoder reads of a message. Http/Encoder
--   models HttpProtocolEncoder.cc and the first lines of HttpRequest.cc and HttpResponse.cc; Http/Lines
--   and Http/Responses are about first lines, Http/Lists, Http/Sized and Http/Framing about headers and
--   bodies, for Http/RoundTrip, which is about a response as a whole. Http/Url models
--   source/src/http/url (URL.cc, URLBuilder.cc) and Http/Url/Parser its URLParser.cc; Http/Url/Texts
--   is about delimiters, Http/Url/Authority, Http/Url/Queries and Http/Url/Lookups about the parts of
--   a URL, Http/Url/RoundTrip and Http/Url/Relative about reading back what is encoded.
-- * coffee.basis has the cache of source/include/coffee/basis/pattern/lru/Cache.hpp: Basis/Cache
--   models it, and Basis/Access, Basis/Updates, Basis/Eviction and Basis/Erasure prove what it holds.
--   Basis/Lru is the list that it promises, Basis/Order relates the two, Basis/Sizes has the invariant
--   and Basis/Moves, Basis/Operations, Basis/Writes and Basis/Removal keep it in each operation, for
--   the runs of Basis/Refinement.
-- * coffee.persistence has the storage of source/src/persistence/Storage.cc over the cache and the
--   guards: Persistence/Storage models it, Persistence/Guards says what the guards let through,
--   Persistence/Outcomes what a load may leave and return; Persistence/Caching, Persistence/Repeated
--   and Persistence/Erasing are about its cache, counters and results, Persistence/Releasing about the
--   connection.
-- * Dbms/Database models source/src/dbms/Database.cc, the registers of connections and statements;
--   Dbms/Database/Registers is about creating connections, Dbms/Database/Opening about initialization.
-- * Basis/Observer models source/src/basis/pattern/observer/Subject.cc, the observers of subjects;
--   Basis/Observer/Attachments counts them, Basis/Observer/Steps is about what clients do with several
--   subjects.
-- * Dbms/Datatype models source/src/dbms/datatype/Abstract.cc and Set.cc, the sets of data that keys
--   are, with the matching of source/src/persistence/PrimaryKey.cc; Dbms/Datatype/Comparing is about
--   comparing sets, Dbms/Datatype/Inserting about inserting into them.
--
-- Conventions. A method that changes its object returns the new object. An exception is a value of
-- `Result`; where a method may throw after it has changed the object, it returns both. An object of
-- a class is a record, a pointer that may be null an Option. A class's mutex makes its method one
-- step. Log lines, texts for printing and the XML dumps of the objects' state are left out.
-- Numbers: `int` counters are unbounded naturals, since none comes near 2^31 in practice and no
-- theorem depends on their wrapping; `int` values that the code compares are `ℤ`; the conversion of
-- a negative `int` to `size_t` is written out.
-- Fuel: Balance.Search.search has as much as the list has resources, and search-Chosen shows that it
-- never runs out; Time.Service.round_up has the longest timeout, and one round is shown to suffice.
-- App.Service.initialize has fuel for its depth: initialize_terminates shows that the number of
-- services that neither run nor start is enough.
-- Http.Decoder.decode has fuel for each byte: apply-out_of_fuel shows that it never runs out.
--
-- What is a parameter: the database engine (Driver), the clock's readings, the strategies inside a
-- range, what resources answer, the virtual methods of services (Behaviour) and of the application
-- (`run`), the parser of a request's URL, the loaders, recorders and erasers of persistent objects, the
-- connections and statements that a concrete database allocates (Allocator), and the comparison of
-- two values of a concrete type of data, which may throw. The client libraries (SQLite, OpenLDAP, libxml2, ZeroMQ,
-- boost) are not in the repository, and the modules that only call them are not modelled.
pub mod App
pub mod Balance
pub mod Base
pub mod Basis
pub mod Dbms
pub mod Http
pub mod Persistence
pub mod Time
