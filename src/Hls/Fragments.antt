-- ===== src/Hls/Fragments.antt =====
-- The packets of a fragmented elementary stream: their payloads put together, their size, and their
-- continuity counters.
use mathlib.Core.List.{append_assoc, append-nil}
use zenlive.Common.{
  ℕ, zero, suc, ◌-◌, ◌≤◌, ◌<◌, ◌≡◌, refl, sym, ap, ◌∙◌, List, [], ◌∷◌, ◌++◌, some, Bool, true,
  false, ltb, ◌&&◌, if◌then◌else◌, length, take, drop, length-append, length-drop, length-take,
  take-append-drop, All, nat_key, if_true, if_false, lt→ltb, inl, inr, Bool-cases, arith,
}
use zenlive.Hls.Writer.{TsWriter, write_packet, packet_head, adaptation_field, fill, stuffing}
use zenlive.Hls.Pes.{advance, write_fragments}

pub length-stuffing : (n : ℕ) → length (stuffing n) ≡ n
unfolding stuffing
length-stuffing zero = refl
length-stuffing (suc n) = ap suc (length-stuffing n)

pub length-fill : (size : ℕ) (payload : List ℕ) → length (fill size payload) ≡ size
unfolding fill
length-fill size payload = ground (
  arith,
  length-append {0} payload (stuffing (size - length payload)),
  length-stuffing (size - length payload),
  length-take {0} size payload,
)

-- What follows the head of a packet.
length-body :
    (size : ℕ) (payload : List ℕ) (some_payload : Bool)
    → length (if some_payload then fill size payload else stuffing size) ≡ size
length-body size payload true = length-fill size payload
length-body size payload false = length-stuffing size

pub length-write_packet :
    (w : TsWriter) (pid : ℕ) (payload : List ℕ) (has_pcr has_payload payload_start : Bool)
    → length (write_packet w pid payload has_pcr has_payload payload_start).0 ≡ 188
unfolding write_packet packet_head adaptation_field
length-write_packet w pid payload true has_payload payload_start =
    omega (arith, length-body 176 payload (has_payload && ltb 0 (length payload)))
length-write_packet w pid payload false has_payload payload_start =
    omega (arith, length-body 184 payload (has_payload && ltb 0 (length payload)))

-- The length of what stands in front of the payload.
abbrev pub head_size : Bool → ℕ
head_size has_pcr = if has_pcr then 12 else 4

-- What a packet carries behind its head: the payload as far as it fits, filled up with 0xFF.
drop-write_packet :
    (w : TsWriter) (pid b : ℕ) (rest : List ℕ) (has_pcr payload_start : Bool)
    → drop (head_size has_pcr) (write_packet w pid (b ∷ rest) has_pcr true payload_start).0
      ≡ fill (188 - head_size has_pcr) (b ∷ rest)
unfolding write_packet packet_head adaptation_field
drop-write_packet w pid b rest true payload_start =
    if_true _ _ _ (lt→ltb 0 (length (b ∷ rest)) (omega arith))
drop-write_packet w pid b rest false payload_start =
    if_true _ _ _ (lt→ltb 0 (length (b ∷ rest)) (omega arith))

-- What the first packet and the others carry, one after the other.
abbrev pub payloads : Bool → List (List ℕ) → List ℕ
payloads has_pcr [] = []
payloads has_pcr (p ∷ packets) = drop (head_size has_pcr) p ++ payloads false packets

-- What the packets of a fragmentation are: their payloads are the bytes, filled up with less than
-- a packet of 0xFF, and each has the size of a packet.
abbrev pub Carries : Bool → List ℕ → List (List ℕ) → Type 0
Carries has_pcr bytes packets =
    ((m : ℕ) × (m < 184) × (payloads has_pcr packets ≡ bytes ++ stuffing m))
    × All (λ p. length p ≡ 188) packets

-- A payload that leaves room in the packet is the last one; any other fills the packet.
module _ (size : ℕ) (p : List ℕ) where
  fill_short : ltb (length p) size ≡ true → fill size p ≡ p ++ stuffing (size - length p)
  unfolding fill
  fill_short = if_true (ltb (length p) size) _ _

  advance_short : ltb (length p) size ≡ true → advance size p ≡ []
  unfolding advance
  advance_short = if_true (ltb (length p) size) _ _

  fill_full : ltb (length p) size ≡ false → fill size p ≡ take size p
  unfolding fill
  fill_full = if_false (ltb (length p) size) _ _

  advance_full : ltb (length p) size ≡ false → advance size p ≡ drop size p
  unfolding advance
  advance_full = if_false (ltb (length p) size) _ _

  -- A packet that is filled, and then what is left of the payload.
  fill-advance :
      (later : List ℕ) (m : ℕ)
      → ltb (length p) size ≡ false
      → later ≡ advance size p ++ stuffing m
      → fill size p ++ later ≡ p ++ stuffing m
  fill-advance later m full e =
      rw (e, fill_full full, advance_full full)
        (sym (append_assoc (take size p) (drop size p) (stuffing m))
          ∙ ap (λ t. t ++ stuffing m) (take-append-drop size p))

-- One more packet, in front of those that carry what is left of the bytes.
one_more :
    (w : TsWriter) (pid b : ℕ) (rest : List ℕ) (has_pcr first : Bool) (packets : List (List ℕ))
    → Carries false (advance (188 - head_size has_pcr) (b ∷ rest)) packets
    → (advance (188 - head_size has_pcr) (b ∷ rest) ≡ [] → packets ≡ [])
    → Carries has_pcr (b ∷ rest) ((write_packet w pid (b ∷ rest) has_pcr true first).0 ∷ packets)
one_more w pid b rest has_pcr first packets ((m, small, carried), sized) ends =
    let size = 188 - head_size has_pcr in
    let p : List ℕ = b ∷ rest in
    let head =
      ap (λ t. t ++ payloads false packets) (drop-write_packet w pid b rest has_pcr first) in
    (
      elim (Bool-cases (ltb (length p) size)) [
        | inl short ↦ (
          size - length p,
          ground arith,
          head
              ∙ ap (λ t. t ++ payloads false packets) (fill_short size p short)
              ∙ ap (λ ps. (p ++ stuffing (size - length p)) ++ payloads false ps)
                  (ends (advance_short size p short))
              ∙ append-nil (p ++ stuffing (size - length p)),
        )
        | inr full ↦ (m, small, head ∙ fill-advance size p (payloads false packets) m full carried)
      ],
      (length-write_packet w pid (b ∷ rest) has_pcr true first, sized),
    )

-- Nothing is left, so no packet follows.
no_more :
    (fuel : ℕ) (w w' : TsWriter) (pid : ℕ) (is_video : Bool) (left : List ℕ)
    (packets : List (List ℕ))
    → write_fragments fuel w pid is_video false left ≡ some (packets, w')
    → left ≡ []
    → packets ≡ []
unfolding write_fragments
no_more fuel w w' pid is_video [] packets e empty = cc
no_more fuel w w' pid is_video (b ∷ left) packets e empty = cc

length-advance : (size : ℕ) (p : List ℕ) → length (advance size p) ≤ length p - size
unfolding advance
length-advance size p = ground (arith, length-drop {0} size p)

pub write_fragments_lem :
    (fuel : ℕ) (w : TsWriter) (pid : ℕ) (is_video first : Bool) (rest : List ℕ)
    → length rest ≤ fuel
    → (packets : List (List ℕ)) × (w' : TsWriter) × (write_fragments fuel w pid is_video first rest
        ≡ some (packets, w'))
      × Carries (first && is_video) rest packets
unfolding write_fragments stuffing
write_fragments_lem fuel w pid is_video first [] enough =
    ([], w, refl, ((0, omega arith, refl), tt))
write_fragments_lem zero w pid is_video first (b ∷ rest) enough = absurd (omega arith)
write_fragments_lem (suc fuel) w pid is_video first (b ∷ rest) enough =
    let has_pcr = first && is_video in
    let written = write_packet w pid (b ∷ rest) has_pcr true first in
    let left = advance (188 - head_size has_pcr) (b ∷ rest) in
    let (packets, w', e, carried) =
      write_fragments_lem fuel written.1 pid is_video false left
        (ground (arith, length-advance (188 - head_size has_pcr) (b ∷ rest))) in
    (
      written.0 ∷ packets,
      w',
      rw e,
      one_more w pid b rest has_pcr first packets carried
          (no_more fuel written.1 w' pid is_video left packets e),
    )
