-- ===== src/Http.antt =====
-- coffee.http: source/src/http and source/include/coffee/http.
pub mod Bytes
pub mod Message
pub mod Decoder
pub mod Tokens
pub mod Headers
pub mod Bodies
pub mod Encoder
pub mod Lines
pub mod Responses
pub mod Lists
pub mod Sized
pub mod Framing
pub mod RoundTrip
pub mod Url
mod Tests
