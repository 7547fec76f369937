-- ===== src/Guest/Ring/Queue.antt =====
-- What a ring in memory holds, as a list: its entries from the consumer's position to the producer's.
use native.Mathlib.Decide.{dec_lt}
use xpute.Common.{ℕ, ◌+◌, ◌*◌, ◌≤◌, ◌<◌, ◌≡◌, ◌≢◌, ap, ◌∙◌, arith, List, [], set}
use xpute.Common.Tabulate.{tabulate, tabulate-set}
use xpute.Collection.Deque.Refine.{window}
use xpute.Guest.Memory.{Memory, raw_word, bytes_at}
use xpute.Guest.Memory.Laws.{Same, raw_word-Same, bytes_at-Same}
use xpute.Guest.Ring.{Ring, index}
use xpute.Guest.Ring.Inv.{Layout, raw_head, used, slot_before, slot_within}

-- A frame's four words as they lie, and its payload slot.
pub record Entry : Type 0 where
  pub tag : ℕ
  pub cmd : ℕ
  pub result : ℕ
  pub pkt_at : ℕ
  pub payload : List ℕ

abbrev pub frame_off : Ring → ℕ → ℕ
frame_off r i = r.at + 4 * (8 + 4 * i)

abbrev pub slot_off : Ring → ℕ → ℕ
slot_off r i = r.slot_base + i * r.slot_bytes

unfoldable pub entry : Memory → Ring → ℕ → Entry
entry m r i = record {
  tag = raw_word m (frame_off r i);
  cmd = raw_word m (frame_off r i + 4);
  result = raw_word m (frame_off r i + 8);
  pkt_at = raw_word m (frame_off r i + 12);
  payload = bytes_at m (slot_off r i) r.slot_bytes;
}

abbrev pub no_entry : Entry
no_entry = record { tag = 0; cmd = 0; result = 0; pkt_at = 0; payload = [] }

abbrev pub entries : Memory → Ring → List Entry
entries m r = tabulate (entry m r) 0 r.cap

-- The entries not yet taken, oldest first.
abbrev pub queue : Memory → Ring → List Entry
queue m r = window no_entry r.cap (entries m r) (index r (raw_head m r)) (used m r)

-- A memory in which only entry `i` of the ring may differ.
pub record OnlyEntry (m n : Memory) (r : Ring) (i : ℕ) : Type 0 where
  pub frames_below : Same m n (r.at + 32) (frame_off r i)
  pub frames_above : Same m n (frame_off r i + 16) (r.at + 4 * (8 + 4 * r.cap))
  pub slots_below : Same m n r.slot_base (slot_off r i)
  pub slots_above : Same m n (slot_off r i + r.slot_bytes) (r.slot_base + r.cap * r.slot_bytes)

entry-Same :
    (m n : Memory) (r : Ring) (j lo hi lo' hi' : ℕ)
    → Same m n lo hi
    → lo ≤ frame_off r j
    → frame_off r j + 16 ≤ hi
    → Same m n lo' hi'
    → lo' ≤ slot_off r j
    → slot_off r j + r.slot_bytes ≤ hi'
    → entry n r j ≡ entry m r j
unfolding entry
entry-Same m n r j lo hi lo' hi' s p q s' p' q' = rw (
  raw_word-Same m n lo hi (frame_off r j) s (omega arith) (omega arith),
  raw_word-Same m n lo hi (frame_off r j + 4) s (omega arith) (omega arith),
  raw_word-Same m n lo hi (frame_off r j + 8) s (omega arith) (omega arith),
  raw_word-Same m n lo hi (frame_off r j + 12) s (omega arith) (omega arith),
  bytes_at-Same m n lo' hi' (slot_off r j) r.slot_bytes s' p' q',
)

module _ {size : ℕ} {r : Ring} (l : Layout size r) (m n : Memory) (i : ℕ) (h : i < r.cap)
    (o : OnlyEntry m n r i) where
  entry-other : (j : ℕ) → j < r.cap → j ≢ i → entry n r j ≡ entry m r j
  entry-other j p ne = elim (dec_lt j i) [
    | yes below ↦
        entry-Same m n r j _ _ _ _ o.frames_below (omega arith) (omega arith) o.slots_below
          (omega arith) (slot_before r.slot_base j i r.slot_bytes below)
    | no above ↦
        entry-Same m n r j _ _ _ _ o.frames_above (omega arith) (omega arith) o.slots_above
          (slot_before r.slot_base i j r.slot_bytes (omega arith)) (slot_within l j p)
  ]

  -- Seen as a list, the ring's entries change at one index.
  pub entries-set : entries n r ≡ set (entries m r) i (entry n r i)
  entries-set =
      tabulate-set (entry m r) (entry n r) 0 r.cap i
        (λ j p q ne. entry-other j (omega arith) (omega arith)) h
      ∙ ap (λ k. set (entries m r) i (entry n r k)) (omega arith)
