-- ===== src/Probe/Tests.antt =====
-- The theorems on the probe at small inputs.
use nextpanel.Prelude.{ℕ, ◌≡◌, refl, arith, true, List, [], ◌∷◌, ◌++◌, some, text}
use nextpanel.Prelude.Exec.{ok}
use nextpanel.Probe.Dialog.{Network, Wire, probe_socks5_udp}
use nextpanel.Probe.Dialog.Frames.{header}
use nextpanel.Probe.Dialog.Frames
use nextpanel.Probe.Dialog.Success.{Relay, ipv6, accepting, probe_socks5_udp-accepting}
use nextpanel.Probe.Reader.{Event, data_came, asked, fresh, run}
use nextpanel.Probe.Reader.Order.{received, run-received_in_order}

-- A read of three bytes that come in two chunks.
abbrev cut_stream : List Event
cut_stream = data_came (1 ∷ 2 ∷ []) ∷ asked 3 ∷ data_came (3 ∷ 4 ∷ []) ∷ []

run-received_in_order_example :
    (run fresh cut_stream).0 ++ (run fresh cut_stream).1.buffer ≡ received true cut_stream
run-received_in_order_example = run-received_in_order cut_stream

abbrev nine : List ℕ
nine = 0 ∷ 0 ∷ 0 ∷ 0 ∷ 0 ∷ 0 ∷ 0 ∷ 0 ∷ 0 ∷ []

abbrev relay : Network
relay = record {
  connects = true;
  remote_address = some (text "9.9.9.9");
  answer = λ host port packet. some (header (Frames.ipv4 1 1 1 1) 0 53 ++ 6 ∷ 7 ∷ 128 ∷ nine);
  utf8_text = λ bytes. bytes;
}

-- A relay at 2001:db8::1, with its port 1080.
abbrev relay_address : Relay
relay_address = ipv6 (32 ∷ 1 ∷ 13 ∷ 184 ∷ 0 ∷ 0 ∷ 0 ∷ 0 ∷ 0 ∷ 0 ∷ 0 ∷ 0 ∷ 0 ∷ 0 ∷ 0 ∷ 1 ∷ [])

abbrev wire : Wire
wire = record { incoming = accepting 0 relay_address 4 56 []; outgoing = [] }

probe_socks5_udp-accepting_example : (probe_socks5_udp relay (6, 7) 12 wire).0 ≡ ok 12
probe_socks5_udp-accepting_example =
    probe_socks5_udp-accepting relay wire 0 4 56 relay_address [] 6 7 128 (Frames.ipv4 1 1 1 1) 0 53
      nine 12 refl refl refl (omega arith) refl tt refl (omega arith)
