-- ===== src/Chan.antt =====
-- lwt_chl.c: channels, from the life of a channel to sending and receiving.
pub mod Buffer
pub mod Contents
pub mod Resume
pub mod Blocking
pub mod Sending
pub mod Fifo
pub mod Full
pub mod Refilling
pub mod Taking
pub mod Receiving
pub mod Meeting
pub mod Waiting
pub mod Handing
pub mod Lifetime
pub mod RoundTrip
pub mod Life
pub mod Block
pub mod Send
pub mod Receive
