-- ===== src/Inter/Serializer/Events.antt =====
-- inter/event_serializer.go: an event as bytes. Arrays of bytes are numbers, and so are hashes. An
-- event's identifier, of lachesis-base, is an epoch, a lamport time and 24 bytes more. The hash of
-- the empty payload of a version is a parameter.
pub mod Parts
pub mod RoundTrip
use go_opera.Base.{
  ℕ, zero, suc, ◌+◌, ◌*◌, ◌/◌, List, [], ◌∷◌, Bool, true, false, ◌&&◌, ◌||◌, Option, some, none,
}
use go_opera.Base.{if◌then◌else◌, ltb, nat_beq, length, u32, sub32, sub64, is_some}
use go_opera.Base.{Result, ok, err, ◌>>=◌, ◌>>◌, fail_if, too_large_alloc, non_canonical_encoding}
use go_opera.Base.{ser_malformed_event, too_low_epoch, unknown_version}
use go_opera.Inter.GasPowerLeft.{GasPowerLeft}
use go_opera.Inter.Serializer.{max_msg_size}
use go_opera.Utils.Bits
use go_opera.Utils.Cser.{
  Writer, Reader, read_u8, write_u8, read_u16, write_u16, read_u32, write_u32,
}
use go_opera.Utils.Cser.{read_u64, write_u64, read_i64, write_i64, read_bool, write_bool}
use go_opera.Utils.Cser.{read_slice_bytes, write_slice_bytes}
use go_opera.Utils.Cser.Arrays.{write_array, read_array}

pub record EventId : Type 0 where
  pub epoch : ℕ
  pub lamport : ℕ
  pub tail : ℕ

-- What `Event` and `MutableEventPayload` have in common.
pub record EventData : Type 0 where
  pub version : ℕ
  pub net_fork_id : ℕ
  pub epoch : ℕ
  pub lamport : ℕ
  pub creator : ℕ
  pub seq : ℕ
  pub frame : ℕ
  pub creation_time : ℕ
  pub median_time : ℕ
  pub gas_power_used : ℕ
  pub gas_power_left : GasPowerLeft
  pub parents : List EventId
  pub prev_epoch_hash : Option ℕ
  pub any_txs : Bool
  pub any_misbehaviour_proofs : Bool
  pub any_epoch_vote : Bool
  pub any_block_votes : Bool
  pub payload_hash : ℕ
  pub extra : List ℕ

abbrev pub has_payload : EventData → Bool
has_payload e = e.any_txs || (e.any_misbehaviour_proofs || (e.any_block_votes || e.any_epoch_vote))

-- The marker of the new format and the version, or nothing for version 0.
unfoldable pub marshal_version : (version epoch : ℕ) → Writer → Result Writer
marshal_version version epoch w =
    if ltb 0 version
    then (do bits ← Bits.write w.bits_w 2 0; write_u8 (record w { bits_w = bits }) version)
    else if ltb epoch 256
    then err too_low_epoch
    else ok w

unfoldable pub unmarshal_version : Reader → Result (ℕ × Reader)
unmarshal_version r = do
  marker ← Bits.view r.bits_r 2
  if nat_beq marker 0
      then (do
        (_, bits) ← Bits.read r.bits_r 2
        (version, r') ← read_u8 (record r { bits_r = bits })
        if nat_beq version 0 then err non_canonical_encoding else ok (version, r'))
      else ok (0, r)

-- `if e.Version() > 0 { ... }`
unfoldable pub marshal_net_fork_id : (version id : ℕ) → Writer → Result Writer
marshal_net_fork_id version id w = if ltb 0 version then write_u16 w id else ok w

unfoldable pub unmarshal_net_fork_id : (version : ℕ) → Reader → Result (ℕ × Reader)
unmarshal_net_fork_id version r = if ltb 0 version then read_u16 r else ok (0, r)

unfoldable pub marshal_parents : (lamport : ℕ) → List EventId → Writer → Result Writer
marshal_parents lamport [] w = ok w
marshal_parents lamport (p ∷ ps) w = if ltb lamport p.lamport then err ser_malformed_event else (do
  w1 ← write_u32 w (sub32 lamport p.lamport)
  w2 ← write_array 24 w1 p.tail
  marshal_parents lamport ps w2)

unfoldable pub unmarshal_parents : (num epoch lamport : ℕ) → Reader → Result (List EventId × Reader)
unmarshal_parents zero epoch lamport r = ok ([], r)
unmarshal_parents (suc num) epoch lamport r = do
  (diff, r1) ← read_u32 r
  (tail, r2) ← read_array 24 r1
  (ps, r3) ← unmarshal_parents num epoch lamport r2
  ok (record { epoch = epoch; lamport = sub32 lamport diff; tail = tail } ∷ ps, r3)

unfoldable pub marshal_optional_hash : Option ℕ → Writer → Result Writer
marshal_optional_hash none w = write_bool w false
marshal_optional_hash (some h) w = do w' ← write_bool w true; write_array 32 w' h

unfoldable pub unmarshal_optional_hash : Reader → Result (Option ℕ × Reader)
unmarshal_optional_hash r = do
  (exists, r') ← read_bool r
  if exists then (do (h, r2) ← read_array 32 r'; ok (some h, r2)) else ok (none, r')

-- `version > 0 && r.Bool()`
unfoldable pub marshal_flag : (version : ℕ) → Bool → Writer → Result Writer
marshal_flag version flag w = if ltb 0 version then write_bool w flag else ok w

unfoldable pub unmarshal_flag : (version : ℕ) → Reader → Result (Bool × Reader)
unmarshal_flag version r = if ltb 0 version then read_bool r else ok (false, r)

unfoldable pub marshal_payload_hash : Bool → ℕ → Writer → Result Writer
marshal_payload_hash any h w = if any then write_array 32 w h else ok w

unfoldable pub unmarshal_payload_hash : Bool → (empty : ℕ) → Reader → Result (ℕ × Reader)
unmarshal_payload_hash any empty r =
    if any
    then (do
      (h, r') ← read_array 32 r
      if nat_beq h empty then err non_canonical_encoding else ok (h, r'))
    else ok (empty, r)

-- What follows the epoch.
unfoldable pub marshal_fields : EventData → Writer → Result Writer
marshal_fields e w3 = do
  w4 ← write_u32 w3 e.lamport
  w5 ← write_u32 w4 e.creator
  w6 ← write_u32 w5 e.seq
  w7 ← write_u32 w6 e.frame
  w8 ← write_u64 w7 e.creation_time
  w9 ← write_i64 w8 (sub64 e.creation_time e.median_time)
  w10 ← write_u64 w9 e.gas_power_used
  w11 ← write_u64 w10 e.gas_power_left.short
  w12 ← write_u64 w11 e.gas_power_left.long
  w13 ← write_u32 w12 (u32 (length e.parents))
  w14 ← marshal_parents e.lamport e.parents w13
  w15 ← marshal_optional_hash e.prev_epoch_hash w14
  w16 ← write_bool w15 e.any_txs
  w17 ← marshal_flag e.version e.any_misbehaviour_proofs w16
  w18 ← marshal_flag e.version e.any_epoch_vote w17
  w19 ← marshal_flag e.version e.any_block_votes w18
  w20 ← marshal_payload_hash (has_payload e) e.payload_hash w19
  write_slice_bytes w20 e.extra

unfoldable pub marshal_event : EventData → Writer → Result Writer
marshal_event e w = do
  w1 ← marshal_version e.version e.epoch w
  w2 ← marshal_net_fork_id e.version e.net_fork_id w1
  w3 ← write_u32 w2 e.epoch
  marshal_fields e w3

unfoldable pub unmarshal_fields :
    (empty_payload_hash : ℕ → ℕ) (version net_fork_id epoch : ℕ)
    → Reader
    → Result (EventData × Reader)
unmarshal_fields empty_payload_hash version net_fork_id epoch r3 = do
  (lamport, r4) ← read_u32 r3
  (creator, r5) ← read_u32 r4
  (seq, r6) ← read_u32 r5
  (frame, r7) ← read_u32 r6
  (creation_time, r8) ← read_u64 r7
  (diff, r9) ← read_i64 r8
  (used, r10) ← read_u64 r9
  (left0, r11) ← read_u64 r10
  (left1, r12) ← read_u64 r11
  (num, r13) ← read_u32 r12
  fail_if (ltb (max_msg_size / 24) num) too_large_alloc
  (parents, r14) ← unmarshal_parents num epoch lamport r13
  (prev, r15) ← unmarshal_optional_hash r14
  (txs, r16) ← read_bool r15
  (mps, r17) ← unmarshal_flag version r16
  (ev, r18) ← unmarshal_flag version r17
  (bvs, r19) ← unmarshal_flag version r18
  (hash, r20) ←
      unmarshal_payload_hash (txs || (mps || (ev || bvs))) (empty_payload_hash version) r19
  (extra, r21) ← read_slice_bytes r20 max_msg_size
  fail_if (nat_beq version 0 && ltb epoch 256) too_low_epoch
  ok (
    record {
      version = version;
      net_fork_id = net_fork_id;
      epoch = epoch;
      lamport = lamport;
      creator = creator;
      seq = seq;
      frame = frame;
      creation_time = creation_time;
      median_time = sub64 creation_time diff;
      gas_power_used = used;
      gas_power_left = record { short = left0; long = left1 };
      parents = parents;
      prev_epoch_hash = prev;
      any_txs = txs;
      any_misbehaviour_proofs = mps;
      any_epoch_vote = ev;
      any_block_votes = bvs;
      payload_hash = hash;
      extra = extra;
    },
    r21,
  )

unfoldable pub unmarshal_event : (empty_payload_hash : ℕ → ℕ) → Reader → Result (EventData × Reader)
unmarshal_event empty_payload_hash r = do
  (version, r1) ← unmarshal_version r
  fail_if (ltb 1 version) unknown_version
  (net_fork_id, r2) ← unmarshal_net_fork_id version r1
  (epoch, r3) ← read_u32 r2
  unmarshal_fields empty_payload_hash version net_fork_id epoch r3
