-- ===== src/Rsp/Laws.antt =====
-- Packets and their sending, src/rsp/rsp_packet.cc and src/rsp/rsp.cc.
use ctap2_test_tool.Base.{
  Bool, Bytes, List, [], ap, append-nil, append_assoc, arith, false, hex2, if◌then◌else◌, length,
  length-append, refl, suc, sym, take-append, true, zero, ℕ, ◌%◌, ◌++◌, ◌+◌, ◌<◌, ◌∙◌, ◌∷◌, ◌≡◌,
  ◌≤◌,
}
use ctap2_test_tool.Rsp.Packet.{
  RspPacket, checksum, checksum_from, data_to_string, get_packetdata, to_string,
}
use ctap2_test_tool.Rsp.Socket.{
  RemoteSerialProtocol, c_string, read_acknowledgement, receive, send, send_once, send_packet,
  send_rounds,
}

checksum_from_lem : (sum : ℕ) (l : Bytes) → sum < 256 → checksum_from sum l < 256
unfolding checksum_from
checksum_from_lem sum [] h = h
checksum_from_lem sum (c ∷ cs) h = checksum_from_lem ((sum + c) % 256) cs (omega arith)

get_packetdata_lem : (d h : Bytes) → length h ≡ 2 → get_packetdata (36 ∷ (d ++ 35 ∷ h)) ≡ d
unfolding get_packetdata
get_packetdata_lem d h e =
    let n : length (36 ∷ (d ++ 35 ∷ h)) ≡ length d + 4 =
      omega (arith, length-append d (35 ∷ h), e) in
    ground (arith, n, take-append (length d) d (35 ∷ h) refl)

-- The data of a packet is what `GetPacketdata` finds in its text.
pub get_packetdata-to_string :
    (packet : RspPacket) → get_packetdata (to_string packet) ≡ data_to_string packet
unfolding to_string hex2
get_packetdata-to_string packet =
    let d = data_to_string packet in
    let h = hex2 (checksum d) in
    ap get_packetdata (ap (λ (l : Bytes). 36 ∷ l) (append_assoc d (35 ∷ []) h))
    ∙ get_packetdata_lem d h refl

-- The texts that are found behind the pointer in `k` rounds, from the round with number `n` on.
pub found : (ℕ → Bytes → Bytes) → Bytes → ℕ → ℕ → List Bytes
found residue text n zero = []
found residue text n (suc k) = c_string (residue n text) ∷ found residue text (suc n) k

-- What the rounds of a packet send: as many texts as there were rounds, each the one that was found
-- behind the pointer when it was sent.
Attempts : Bytes → ℕ → RemoteSerialProtocol → Bool × RemoteSerialProtocol → Type 0
Attempts text retries r (ok, e) =
    (k : ℕ) × (e.sent ≡ r.sent ++ found r.residue text (length r.sent) k)
    × (k ≤ retries)
    × (ok ≡ true → 1 ≤ k)
    × (ok ≡ false → k ≡ retries)

send_once-sent :
    (buf : Bytes) (r : RemoteSerialProtocol)
    → ((send_once buf r).1.sent ≡ r.sent ++ buf ∷ []) × ((send_once buf r).1.residue ≡ r.residue)
unfolding send_once send read_acknowledgement receive
send_once-sent buf r = (ground arith, ground arith)

step-Attempts :
    (text : Bytes) (n : ℕ) (r : RemoteSerialProtocol) (ok : Bool) (r' : RemoteSerialProtocol)
    (rest : Bool × RemoteSerialProtocol)
    → r'.sent ≡ r.sent ++ c_string (r.residue (length r.sent) text) ∷ []
    → r'.residue ≡ r.residue
    → Attempts text n r' rest
    → Attempts text (suc n) r (if ok then (true, r') else rest)
unfolding Attempts found
step-Attempts text n r true r' rest e q a =
    (1, e, omega arith, λ _. omega arith, λ w. ground (arith, w))
step-Attempts text n r false r' rest e q (k, f, l, p, u) =
    let next : length r'.sent ≡ suc (length r.sent) =
      ap (λ (x : List Bytes). length x) e
      ∙ omega (arith, length-append r.sent (c_string (r.residue (length r.sent) text) ∷ [])) in
    let same : found r'.residue text (length r'.sent) k
        ≡ found r.residue text (suc (length r.sent)) k =
      λ i. found (q i) text (next i) k in
    (
      suc k,
      f
          ∙ ap (λ (x : List Bytes). r'.sent ++ x) same
          ∙ ap (λ (x : List Bytes). x ++ found r.residue text (suc (length r.sent)) k) e
          ∙ append_assoc r.sent (c_string (r.residue (length r.sent) text) ∷ [])
              (found r.residue text (suc (length r.sent)) k),
      omega (arith, l),
      λ _. omega arith,
      λ w. ap suc (u w),
    )

send_rounds-Attempts :
    (text : Bytes) (retries : ℕ) (r : RemoteSerialProtocol)
    → Attempts text retries r (send_rounds text retries r)
unfolding send_rounds Attempts found
send_rounds-Attempts text zero r =
    (0, sym (append-nil r.sent), omega arith, λ e. ground (arith, e), λ e. refl)
send_rounds-Attempts text (suc n) r =
    let buf = c_string (r.residue (length r.sent) text) in
    let once = send_once-sent buf r in
    step-Attempts text n r (send_once buf r).0 (send_once buf r).1 _ once.0 once.1
      (send_rounds-Attempts text n (send_once buf r).1)

-- A packet is sent at most as often as there are retries, each time as what is then found where its
-- text lay; a packet that is reported as sent was sent at least once, and one that is not was sent
-- as often as there are retries.
pub send_packet_attempts :
    (packet : RspPacket) (retries : ℕ) (r : RemoteSerialProtocol)
    → let (ok, e) = send_packet packet retries r in
      (k : ℕ) × (e.sent ≡ r.sent ++ found r.residue (to_string packet) (length r.sent) k)
      × (k ≤ retries)
      × (ok ≡ true → 1 ≤ k)
      × (ok ≡ false → k ≡ retries)
unfolding send_packet Attempts
send_packet_attempts packet retries r = send_rounds-Attempts (to_string packet) retries r
