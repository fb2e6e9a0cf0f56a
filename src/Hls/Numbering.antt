-- ===== src/Hls/Numbering.antt =====
-- The continuity counters of the packets of pkg/streaming/hls/segment.go.
use mathlib.Core.Path.{subst}
use zenlive.Common.{
  ℕ, zero, suc, ◌+◌, ◌-◌, ◌%◌, ◌≡◌, ap, List, [], ◌∷◌, some, Bool, true, false, ◌&&◌, get_or,
  lookup, nat_key, lookup-insert_self, arith,
}
use zenlive.Hls.Buffer.{>>=-eq-some}
use zenlive.Hls.Writer.{
  TsWriter, write_packet, packet_head, counter_of, control_byte, adaptation_control,
}
use zenlive.Hls.Pes.{write_fragments, advance}
use zenlive.Hls.Fragments.{head_size}

-- The counter of a pid.
abbrev pub counter : ℕ → TsWriter → ℕ
counter pid w = counter_of (lookup pid w.continuity_counter)

-- The fourth byte of each packet is the counter and no more, which goes up by 1 modulo 16.
abbrev pub Numbered : ℕ → List (List ℕ) → Type 0
Numbered c [] = Unit {0}
Numbered c (p ∷ packets) = (get_or p 3 0 ≡ c % 16) × Numbered ((c + 1) % 16) packets

control_byte_lem :
    (has_pcr has_payload : Bool) (cc : ℕ)
    → control_byte (adaptation_control has_pcr has_payload) cc ≡ cc % 16
unfolding control_byte adaptation_control
control_byte_lem has_pcr has_payload cc = ground arith

fourth-write_packet :
    (w : TsWriter) (pid : ℕ) (payload : List ℕ) (has_pcr has_payload payload_start : Bool)
    → get_or (write_packet w pid payload has_pcr has_payload payload_start).0 3 0
      ≡ counter pid w % 16
unfolding write_packet packet_head
fourth-write_packet w pid payload has_pcr has_payload payload_start =
    control_byte_lem has_pcr has_payload (counter pid w)

counter-write_packet :
    (w : TsWriter) (pid : ℕ) (payload : List ℕ) (has_pcr has_payload payload_start : Bool)
    → counter pid (write_packet w pid payload has_pcr has_payload payload_start).1
      ≡ (counter pid w + 1) % 16
unfolding write_packet
counter-write_packet w pid payload has_pcr has_payload payload_start =
    ap counter_of (lookup-insert_self pid ((counter pid w + 1) % 16) w.continuity_counter)

pub write_fragments-Numbered :
    (fuel : ℕ) (w w' : TsWriter) (pid : ℕ) (is_video first : Bool) (rest : List ℕ)
    (packets : List (List ℕ))
    → write_fragments fuel w pid is_video first rest ≡ some (packets, w')
    → Numbered (counter pid w) packets
unfolding write_fragments
write_fragments-Numbered fuel w w' pid is_video first [] packets e =
    let none_sent : [] ≡ packets = cc e in subst (Numbered (counter pid w)) none_sent tt
write_fragments-Numbered zero w w' pid is_video first (b ∷ rest) packets e = cc
write_fragments-Numbered (suc fuel) w w' pid is_video first (b ∷ rest) packets e =
    let has_pcr = first && is_video in
    let written = write_packet w pid (b ∷ rest) has_pcr true first in
    let left = advance (188 - head_size has_pcr) (b ∷ rest) in
    let (r, sent, e') =
      >>=-eq-some (write_fragments fuel written.1 pid is_video false left)
        (λ r. some (written.0 ∷ r.0, r.1)) e in
    let split : written.0 ∷ r.0 ≡ packets = cc e' in
    subst (Numbered (counter pid w)) split (
      fourth-write_packet w pid (b ∷ rest) has_pcr true first,
      subst (λ c. Numbered c r.0) (counter-write_packet w pid (b ∷ rest) has_pcr true first)
          (write_fragments-Numbered fuel written.1 r.1 pid is_video false left r.0 sent),
    )
