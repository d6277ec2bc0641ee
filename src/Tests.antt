-- ===== src/Tests.antt =====
-- Runs of the code at small inputs, which show that the hypotheses of the theorems can hold.
mod Sample
mod Wire
mod Pool
mod Socks
mod Channels
mod PbTcp
mod Session
mod Reverse
mod Http
mod Relaying
mod Objects
mod Sizes
mod Grpc
mod Routes
mod RawUdp
mod Udp
