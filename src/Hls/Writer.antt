-- ===== src/Hls/Writer.antt =====
-- `TSWriter` and `WritePacket` of pkg/streaming/hls: one packet of 188 bytes. The array of the packet
-- is written from its first byte to its last, so the packet is what is written, in order. A `|` of
-- disjoint bits is a sum, a `&` with a mask of low bits a remainder.
use zenlive.Common.{
  ℕ, zero, suc, ◌+◌, ◌-◌, ◌*◌, ◌/◌, ◌%◌, ◌^◌, List, [], ◌∷◌, ◌++◌, Option, none, some, Bool, ltb,
  ◌&&◌, if◌then◌else◌, length, take, lookup, insert, nat_key,
}
use zenlive.Rtmp.Bytes.{byte, put_be16}

abbrev pub ts_packet_size : ℕ
ts_packet_size = 188

abbrev pub pid_pat : ℕ
pid_pat = 0

abbrev pub pid_pmt : ℕ
pid_pmt = 0x1000

abbrev pub pid_video : ℕ
pid_video = 0x100

abbrev pub pid_audio : ℕ
pid_audio = 0x101

abbrev pub pid_pcr : ℕ
pid_pcr = 0x1000

pub record TsWriter : Type 0 where
  pub packet_count : ℕ
  pub continuity_counter : List (ℕ × ℕ)
  pub pcr_base : ℕ
  pub pts : ℕ
  pub dts : ℕ

unfoldable pub new_ts_writer : TsWriter
new_ts_writer = record { packet_count = 0; continuity_counter = []; pcr_base = 0; pts = 0; dts = 0 }

-- `m[pid]`, 0 for a key that is missing.
abbrev pub counter_of : Option ℕ → ℕ
counter_of none = 0
counter_of (some c) = c

-- `pidField`: the unit start bit, and 13 bits of the pid.
unfoldable pub pid_field : ℕ → Bool → ℕ
pid_field pid payload_start = (if payload_start then 0x4000 else 0) + pid % 0x2000

unfoldable pub adaptation_control : Bool → Bool → ℕ
adaptation_control has_pcr has_payload =
    if has_pcr then 0x30 else if has_payload then 0x10 else 0x20

-- `(adaptationControl << 4) | (cc & 0x0F)`, in a byte.
unfoldable pub control_byte : ℕ → ℕ → ℕ
control_byte control cc = byte (control * 16) + cc % 16

-- The adaptation field: its length, its flags and the 6 bytes of the clock.
unfoldable pub adaptation_field : ℕ → List ℕ
adaptation_field pcr =
    7
    ∷ 0x10
    ∷ byte (pcr / 2 ^ 25)
    ∷ byte (pcr / 2 ^ 17)
    ∷ byte (pcr / 2 ^ 9)
    ∷ byte (pcr / 2)
    ∷ (pcr % 2 * 128 + 0x7e)
    ∷ 0
    ∷ []

-- `n` bytes 0xFF.
unfoldable pub stuffing : ℕ → List ℕ
stuffing zero = []
stuffing (suc n) = 0xff ∷ stuffing n

-- The rest of a packet of which `size` bytes are free.
unfoldable pub fill : ℕ → List ℕ → List ℕ
fill size payload =
    if ltb (length payload) size
    then payload ++ stuffing (size - length payload)
    else take size payload

unfoldable pub packet_head : TsWriter → ℕ → Bool → Bool → Bool → List ℕ
packet_head w pid has_pcr has_payload payload_start =
    0x47 ∷ put_be16 (pid_field pid payload_start)
    ++ control_byte (adaptation_control has_pcr has_payload)
        (counter_of (lookup pid w.continuity_counter))
      ∷ (if has_pcr then adaptation_field w.pcr_base else [])

-- `WritePacket(pid, payload, hasPCR, hasPayload, payloadStart)`, which reports no error.
unfoldable pub write_packet : TsWriter → ℕ → List ℕ → Bool → Bool → Bool → List ℕ × TsWriter
write_packet w pid payload has_pcr has_payload payload_start =
    let head = packet_head w pid has_pcr has_payload payload_start in
    let size = ts_packet_size - length head in
    let body = if has_payload && ltb 0 (length payload) then fill size payload else stuffing size in
    let w' : TsWriter = record w {
      packet_count = (w.packet_count + 1) % 2 ^ 64;
      continuity_counter =
          insert pid ((counter_of (lookup pid w.continuity_counter) + 1) % 16) w.continuity_counter;
      pcr_base = if has_pcr then (w.pcr_base + 3600) % 2 ^ 64 else w.pcr_base;
    } in
    (head ++ body, w')
