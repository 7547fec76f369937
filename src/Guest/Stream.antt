-- ===== src/Guest/Stream.antt =====
-- guest/ipc/stream.hpp and stream.cpp: a turn's calls as records in one range of the memory, which is
-- passed along. A transaction's records are all recorded or all dropped.
pub mod Inv
pub mod Transaction
mod Tests
use xpute.Common.{
  ℕ, zero, suc, ◌+◌, ◌-◌, ◌*◌, ◌/◌, ◌^◌, ◌%◌, Bool, true, false, not, ◌&&◌, Option, none, some,
  List, [], ◌∷◌, length, ltb, leb, ◌==◌, if◌then◌else◌,
}
use xpute.Status.{Errno, Run, done, ◌>>=◌, ◌>>◌, ensure}
use xpute.Guest.Memory.{Memory, u32, set_word, copy_bytes}

abbrev pub word_bytes : ℕ
word_bytes = 4

-- The word that says how many words of records were published.
abbrev pub end_word : ℕ
end_word = 0

pub data MarkState : Type 0 where
  off_mark is_open spilled : MarkState

pub record Stream : Type 0 where
  pub at : ℕ
  pub words : ℕ
  pub head : ℕ
  pub len : ℕ
  pub mark : MarkState
  pub mark_at : ℕ

-- In 64 bits: what is counted is far below their wrap.
abbrev pub record_words : ℕ → Option ℕ → ℕ
record_words args none = 2 + args
record_words args (some bytes) = 2 + args + (1 + (bytes + word_bytes - 1) / word_bytes)

abbrev pub record_bytes : ℕ → Option ℕ → ℕ
record_bytes args bytes = record_words args bytes * word_bytes

pub make : Memory → ℕ → ℕ → ℕ → Run (Stream × Memory)
make m at words head = do
  ensure (ltb end_word head && ltb head words) Errno.einval
  m' ← set_word m (u32 (at + word_bytes * end_word)) 0
  done (
    record { at = at; words = words; head = head; len = 0; mark = MarkState.off_mark; mark_at = 0 },
    m',
  )

abbrev pub left : Stream → ℕ
left s = u32 (u32 (s.words + 2 * 2 ^ 32 - s.head - s.len) * word_bytes)

abbrev pub fits : Stream → ℕ → ℕ → Bool
fits s bytes leave = leb ((bytes + leave) % 2 ^ 64) (left s)

-- Where the record's words begin, after its op and count.
unfoldable pub opened : Memory → Stream → ℕ → ℕ → Run (ℕ × Stream × Memory)
opened m s op n = do
  let at = u32 (s.head + s.len)
  ensure (leb (at + 2 + n) s.words) Errno.enospc
  let off = u32 (s.at + u32 (word_bytes * at))
  m₁ ← set_word m off op
  m₂ ← set_word m₁ (u32 (off + word_bytes)) n
  done (u32 (off + 2 * word_bytes), record s { len = u32 (s.len + 2 + n) }, m₂)

-- `open`, its answer an optional as `reserve` gives it.
abbrev pub opened_some : Memory → Stream → ℕ → ℕ → Run (Option ℕ × Stream × Memory)
opened_some m s op n = do (w, s', m') ← opened m s op n; done (some w, s', m')

-- A transaction that no longer fits the record is dropped; outside one it is the bug of `open`.
unfoldable pub reserve_in : MarkState → Memory → Stream → ℕ → ℕ → Run (Option ℕ × Stream × Memory)
unfolding opened
reserve_in MarkState.spilled m s op n = done (none, s, m)
reserve_in MarkState.is_open m s op n =
    if ltb (left s) ((2 + n) * word_bytes)
    then done (none, record s { mark = MarkState.spilled }, m)
    else opened_some m s op n
reserve_in MarkState.off_mark m s op n = opened_some m s op n

unfoldable pub reserve : Memory → Stream → ℕ → ℕ → Run (Option ℕ × Stream × Memory)
unfolding reserve_in
reserve m s op n = reserve_in s.mark m s op n

abbrev pub byte_words_of : Option (List ℕ) → ℕ
byte_words_of none = 0
byte_words_of (some bytes) = u32 (record_words 0 (some (length bytes)) - 2)

-- `set_word(w + WORD * (i + k), args[k])` for every `k`.
pub set_words : Memory → ℕ → ℕ → List ℕ → Run Memory
set_words m w i [] = done m
set_words m w i (x ∷ xs) = do
  m' ← set_word m (u32 (w + word_bytes * i)) x
  set_words m' w (i + 1) xs

-- The bytes' last word is cleared first where they have one, since they may not fill it.
pub fill_bytes : Memory → ℕ → Option (List ℕ) → Run Memory
fill_bytes m k none = done m
fill_bytes m k (some bytes) = do
  let n = byte_words_of (some bytes)
  m₁ ← set_word m k (u32 (length bytes))
  m₂ ← (if ltb 1 n then set_word m₁ (u32 (k + word_bytes * (n - 1))) 0 else done m₁)
  done (copy_bytes m₂ (u32 (k + word_bytes)) bytes)

pub fill : Memory → ℕ → List ℕ → List ℕ → Option (List ℕ) → Run Memory
unfolding set_words fill_bytes
fill m w args tail bytes = do
  m₁ ← set_words m w 0 args
  m₂ ← set_words m₁ w (length args) tail
  fill_bytes m₂ (u32 (w + word_bytes * u32 (length args + length tail))) bytes

-- What a reserved record is filled with; nothing where it was dropped.
abbrev pub filled :
    List ℕ → List ℕ → Option (List ℕ) → Option ℕ × Stream × Memory → Run (Stream × Memory)
filled args tail bytes (none, s, m) = done (s, m)
filled args tail bytes (some w, s, m) = do m' ← fill m w args tail bytes; done (s, m')

pub put : Memory → Stream → ℕ → List ℕ → List ℕ → Option (List ℕ) → Run (Stream × Memory)
unfolding reserve fill
put m s op args tail bytes = do
  r ← reserve m s op (u32 (u32 (length args + length tail) + byte_words_of bytes))
  filled args tail bytes r

pub past : Memory → Stream → ℕ → List ℕ → Option (List ℕ) → Run (Option ℕ × Memory)
unfolding fill
past m s op args bytes =
    let n = u32 (length args + byte_words_of bytes) in
    let at = u32 (s.head + s.len) in
    let off = u32 (s.at + u32 (word_bytes * at)) in
    if ltb s.words (at + 2 + n) then done (none, m) else (do
      m₁ ← set_word m off op
      m₂ ← set_word m₁ (u32 (off + word_bytes)) n
      m₃ ← fill m₂ (u32 (off + 2 * word_bytes)) args [] bytes
      done (some off, m₃))

pub publish : Memory → Stream → Run (Stream × Memory)
publish m s = do
  m' ← set_word m (u32 (s.at + word_bytes * end_word)) s.len
  done (record s { len = 0 }, m')

abbrev pub begin : Stream → Stream
begin s = record s { mark = MarkState.is_open; mark_at = s.len }

-- Whether the transaction fit, and the stream after it.
abbrev pub commit : Stream → Bool × Stream
commit s = elim s.mark [
  | MarkState.spilled ↦
      (false, record s { len = s.mark_at; mark = MarkState.off_mark; mark_at = 0 })
  | MarkState.is_open ↦ (true, record s { mark = MarkState.off_mark; mark_at = 0 })
  | MarkState.off_mark ↦ (true, record s { mark = MarkState.off_mark; mark_at = 0 })
]
