-- ===== src/Guest/Ring.antt =====
-- guest/ipc/ring.hpp, ring.cpp and ring.spec.hpp: a ring of frames in the memory both sides see. The
-- memory is passed along; a `Ring` holds what was read once, when it was made.
pub mod Inv
pub mod Queue
pub mod Publish
pub mod Append
pub mod Refine
pub mod Take
pub mod Init
pub mod Packet
mod Tests
use Prim.Native.Nat.{bit_and}
use xpute.Common.{
  ℕ, zero, suc, ◌+◌, ◌-◌, ◌*◌, ◌/◌, ◌%◌, ◌^◌, Bool, true, false, not, ◌&&◌, ◌||◌, Option, none,
  some, List, [], ◌∷◌, length, ltb, leb, ◌==◌, if◌then◌else◌,
}
use xpute.Status.{Errno, Run, done, ◌>>=◌, ◌>>◌, ensure, Result, val, err, marshal_error}
use xpute.Guest.Memory.{Memory, u32, word, set_word, raw_word, clear_bytes, copy_bytes, bytes_at}
use xpute.Guest.Frame
use xpute.Guest.Frame.{Frame}

-- The header's words: the cap, the consumer's and the producer's position, a slot's size, and where the
-- slots start. Three more are kept at 0.
abbrev pub cap_word : ℕ
cap_word = 0

abbrev pub head_word : ℕ
head_word = 1

abbrev pub tail_word : ℕ
tail_word = 2

abbrev pub slot_bytes_word : ℕ
slot_bytes_word = 3

abbrev pub slot_base_word : ℕ
slot_base_word = 4

abbrev pub header_words : ℕ
header_words = 8

-- XTP's word and header, which a payload is padded to and begins with.
abbrev pub word_sz : ℕ
word_sz = 8

abbrev pub hdr_sz : ℕ
hdr_sz = 16

pub record Ring : Type 0 where
  pub at : ℕ
  pub cap : ℕ
  pub slot_bytes : ℕ
  pub slot_base : ℕ

abbrev pub ring_bytes : ℕ → ℕ
ring_bytes cap = u32 (u32 (header_words + u32 (cap * Frame.words)) * 4)

abbrev pub slots_bytes : ℕ → ℕ → ℕ
slots_bytes cap slot_bytes = u32 (cap * slot_bytes)

-- `n & (n - 1)` is taken in `uint32_t`; `n` is not 0 where it is read.
pub power_of_two : ℕ → Bool
power_of_two n = not (n == 0) && bit_and n (n - 1) == 0

-- In 64 bits, so it does not wrap.
abbrev pub padded : ℕ → ℕ
padded n = (n + word_sz - 1) / word_sz * word_sz

pub make : Memory → ℕ → Run Ring
make m at = do
  cap ← word m (u32 (at + 4 * cap_word))
  slot_bytes ← word m (u32 (at + 4 * slot_bytes_word))
  slot_base ← word m (u32 (at + 4 * slot_base_word))
  ensure (power_of_two cap) Errno.einval
  done (record { at = at; cap = cap; slot_bytes = slot_bytes; slot_base = slot_base })

pub init : Memory → ℕ → ℕ → ℕ → ℕ → Run (Ring × Memory)
init m at cap slot_base slot_bytes = do
  ensure (power_of_two cap) Errno.einval
  ensure (power_of_two slot_bytes && slot_bytes % word_sz == 0) Errno.einval
  let m₀ = clear_bytes m at (ring_bytes cap)
  m₁ ← set_word m₀ (u32 (at + 4 * cap_word)) cap
  m₂ ← set_word m₁ (u32 (at + 4 * slot_bytes_word)) slot_bytes
  m₃ ← set_word m₂ (u32 (at + 4 * slot_base_word)) slot_base
  r ← make m₃ at
  done (r, m₃)

pub head : Memory → Ring → Run ℕ
head m r = word m (u32 (r.at + 4 * head_word))

pub tail : Memory → Ring → Run ℕ
tail m r = word m (u32 (r.at + 4 * tail_word))

pub len : Memory → Ring → Run ℕ
unfolding head tail
len m r = do t ← tail m r; h ← head m r; done (u32 (t + 2 ^ 32 - h))

pub is_empty : Memory → Ring → Run Bool
unfolding len
is_empty m r = do n ← len m r; done (n == 0)

-- The frame that owns a position: `pos & (cap_ - 1)`.
abbrev pub index : Ring → ℕ → ℕ
index r pos = bit_and pos (r.cap - 1)

abbrev pub entry_at : Ring → ℕ → ℕ
entry_at r pos = u32 (header_words + u32 (index r pos * Frame.words))

abbrev pub slot_at : Ring → ℕ → ℕ
slot_at r pos = u32 (r.slot_base + u32 (index r pos * r.slot_bytes))

-- `mem_.at(slot + n)`: the sum is `uint32_t`.
abbrev pub pad : Memory → ℕ → ℕ → Memory
pad m slot n = clear_bytes m (u32 (slot + n)) (padded n - n)

-- The tail is written last, so the frame is whole before the tail says so.
pub publish : Memory → Ring → ℕ → ℕ → ℕ → ℕ → ℕ → Run Memory
unfolding tail
publish m r tag cmd flags result pkt_at = do
  t ← tail m r
  let f = u32 (r.at + u32 (4 * entry_at r t))
  m₁ ← set_word m (u32 (f + 4 * Frame.tag_word)) tag
  m₂ ← set_word m₁ (u32 (f + 4 * Frame.cmd_word_at)) (Frame.cmd_word cmd flags)
  m₃ ← set_word m₂ (u32 (f + 4 * Frame.result_word)) result
  m₄ ← set_word m₃ (u32 (f + 4 * Frame.pkt_word)) pkt_at
  set_word m₄ (u32 (r.at + 4 * tail_word)) (u32 (t + 1))

-- The payload laid in its slot, and the memory after; none is EMSGSIZE.
pub lay : Memory → Ring → ℕ → Option (List ℕ) → Option (ℕ × Memory)
lay m r t none = some (0, m)
lay m r t (some bytes) =
    if ltb r.slot_bytes (padded (length bytes))
    then none
    else some
        (slot_at r t, pad (copy_bytes m (slot_at r t) bytes) (slot_at r t) (u32 (length bytes)))

pub pushed : Memory → Ring → ℕ → ℕ → ℕ → ℕ → Option (ℕ × Memory) → Run (Errno × Memory)
unfolding publish
pushed m r tag cmd flags result none = done (Errno.emsgsize, m)
pushed m r tag cmd flags result (some (pkt_at, m')) = do
  m'' ← publish m' r tag cmd flags result pkt_at
  done (Errno.ok, m'')

pub push : Memory → Ring → ℕ → ℕ → ℕ → ℕ → Option (List ℕ) → Run (Errno × Memory)
unfolding len lay pushed
push m r tag cmd flags result pkt = do
  n ← len m r
  t ← tail m r
  if leb r.cap n then done (Errno.eagain, m) else pushed m r tag cmd flags result (lay m r t pkt)

-- `write` is given the whole slot: what it leaves there, and the length that it answers.
pub settle : Memory → Ring → ℕ → ℕ → ℕ → ℕ → ℕ → Option ℕ → Run (Errno × Memory)
unfolding publish
settle m r tag cmd flags result slot none = done (Errno.emsgsize, m)
settle m r tag cmd flags result slot (some n) =
    if ltb r.slot_bytes n
    then done (Errno.emsgsize, m)
    else (do m' ← publish (pad m slot n) r tag cmd flags result slot; done (Errno.ok, m'))

pub push_in_place :
    Memory → Ring → ℕ → ℕ → ℕ → ℕ → (List ℕ → List ℕ × Option ℕ) → Run (Errno × Memory)
unfolding len settle
push_in_place m r tag cmd flags result write = do
  n ← len m r
  t ← tail m r
  if leb r.cap n
      then done (Errno.eagain, m)
      else (let slot = slot_at r t in
          let (left, used) = write (bytes_at m slot r.slot_bytes) in
          settle (copy_bytes m slot left) r tag cmd flags result slot used)

-- The four words of the frame at a position.
pub frame_at : Memory → Ring → ℕ → Run Frame
frame_at m r pos = do
  let f = u32 (r.at + u32 (4 * entry_at r pos))
  c ← word m (u32 (f + 4 * Frame.cmd_word_at))
  t ← word m (u32 (f + 4 * Frame.tag_word))
  v ← word m (u32 (f + 4 * Frame.result_word))
  p ← word m (u32 (f + 4 * Frame.pkt_word))
  done (record { tag = t; cmd = Frame.cmd_of c; flags = Frame.flags_of c; result = v; pkt_at = p })

pub peek : Memory → Ring → Run (Option Frame)
unfolding is_empty head frame_at
peek m r = do
  e ← is_empty m r
  h ← head m r
  if e then done none else (do f ← frame_at m r h; done (some f))

-- The span of a frame's packet, as an offset and a length: what it names must be a whole slot's.
pub pkt : Memory → Ring → Frame → Run (Result (ℕ × ℕ))
pkt m r f =
    if f.pkt_at == 0
    then done (val (0, 0))
    else if ltb f.pkt_at r.slot_base
    then done (err (marshal_error Errno.ebadmsg))
    else if not ((f.pkt_at - r.slot_base) % r.slot_bytes == 0)
        || ltb (slots_bytes r.cap r.slot_bytes) (f.pkt_at - r.slot_base + hdr_sz)
    then done (err (marshal_error Errno.ebadmsg))
    else (do
      w ← word m (u32 (f.pkt_at + word_sz))
      let n = padded (hdr_sz + w)
      done (if ltb r.slot_bytes n then err (marshal_error Errno.ebadmsg) else val (f.pkt_at, n)))

pub advance : Memory → Ring → Run Memory
unfolding is_empty head
advance m r = do
  e ← is_empty m r
  ensure (not e) Errno.enotrecoverable
  h ← head m r
  set_word m (u32 (r.at + 4 * head_word)) (u32 (h + 1))
