-- ===== src/Agent/Outbound.antt =====
-- getOutboundIP of internal/agent/sender.go, which both clients call.
use metrify.Base.{Bytes, ◌⊎◌, inl, inr, codes}
use metrify.Failure.{Failure, message}

-- The local address of a connection: a *net.UDPAddr with the text of its IP, or another net.Addr.
pub data LocalAddr : Type 0 where
  udp_addr : Bytes → LocalAddr
  other_addr : LocalAddr

-- net.Dial("udp", "8.8.8.8:80") with the local address of its connection, and Close.
pub record Dialer (W : Type 0) : Type 0 where
  pub dial : W → (Failure ⊎ LocalAddr) × W
  pub close_conn : W → W

abbrev pub ip_of : LocalAddr → Failure ⊎ Bytes
ip_of (udp_addr ip) = inr ip
ip_of other_addr = inl (message (codes "local address is not UDP"))

module _ {W : Type 0} (dialer : Dialer W) where
  -- Close is deferred once the connection is open.
  abbrev of_dial : Failure ⊎ LocalAddr → W → (Failure ⊎ Bytes) × W
  of_dial (inl e) w = (inl e, w)
  of_dial (inr addr) w = (ip_of addr, dialer.close_conn w)

  unfoldable pub get_outbound_ip : W → (Failure ⊎ Bytes) × W
  get_outbound_ip w = let (r, w') = dialer.dial w in of_dial r w'
