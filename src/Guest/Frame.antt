-- ===== src/Guest/Frame.antt =====
-- guest/ipc/frame.hpp and frame.spec.hpp: a frame's four words. The result, an `int32_t`, is its bit
-- pattern.
mod Tests
use Prim.Native.Nat.{bit_and, bit_or}
use xpute.Common.{ℕ, ◌+◌, ◌*◌, ◌/◌, ◌%◌, ◌^◌, ◌<◌, ◌≡◌, ◌-◌, arith}
use xpute.Common.Bits.{bit_and_mask, bit_or_high}
use xpute.Guest.Memory.{u32}

pub record Frame : Type 0 where
  pub tag : ℕ
  pub cmd : ℕ
  pub flags : ℕ
  pub result : ℕ
  pub pkt_at : ℕ

-- The words of a frame, in order, and where the fields of a word start.
abbrev pub tag_word : ℕ
tag_word = 0

abbrev pub cmd_word_at : ℕ
cmd_word_at = 1

abbrev pub result_word : ℕ
result_word = 2

abbrev pub pkt_word : ℕ
pkt_word = 3

abbrev pub words : ℕ
words = 4

abbrev pub port_shift : ℕ
port_shift = 24

abbrev pub host : ℕ
host = 0

abbrev pub flag_shift : ℕ
flag_shift = 16

-- The flags of a reply, and of a frame that always wants one.
abbrev pub res : ℕ
res = 1

abbrev pub ackreq : ℕ
ackreq = 2

abbrev pub cmd_mask : ℕ
cmd_mask = 2 ^ flag_shift - 1

unfoldable pub cmd_word : ℕ → ℕ → ℕ
cmd_word cmd flags = bit_or (u32 (flags * 2 ^ flag_shift)) (bit_and cmd cmd_mask)

unfoldable pub cmd_of : ℕ → ℕ
cmd_of word = bit_and word cmd_mask

unfoldable pub flags_of : ℕ → ℕ
flags_of word = word / 2 ^ flag_shift

unfoldable pub port_of : ℕ → ℕ
port_of tag = tag / 2 ^ port_shift

unfoldable pub tagged : ℕ → ℕ → ℕ
tagged port id = bit_or (u32 (port * 2 ^ port_shift)) id

-- A command word gives back the command's low 16 bits and the flags, where those fit 16 bits.
pub cmd_word_fields :
    (cmd flags : ℕ)
    → flags < 2 ^ 16
    → (cmd_of (cmd_word cmd flags) ≡ cmd % 2 ^ 16)
      × (flags_of (cmd_word cmd flags) ≡ flags)
      × (cmd_word cmd flags < 2 ^ 32)
unfolding cmd_word cmd_of flags_of
cmd_word_fields cmd flags h =
    let low = bit_and_mask 16 cmd in
    let high : u32 (flags * 2 ^ 16) ≡ flags * 2 ^ 16 = omega arith in
    let whole = bit_or_high 16 flags (cmd % 2 ^ 16) (omega arith) in
    rw (low, high, whole, bit_and_mask 16 (flags * 2 ^ 16 + cmd % 2 ^ 16)) (omega arith)

-- A tag gives back the port, where that is one of 256 and the id leaves its bits alone.
pub port_of-tagged : (port id : ℕ) → port < 2 ^ 8 → id < 2 ^ 24 → port_of (tagged port id) ≡ port
unfolding port_of tagged
port_of-tagged port id p q =
    let high : u32 (port * 2 ^ 24) ≡ port * 2 ^ 24 = omega arith in
    rw (high, bit_or_high 24 port id q) (omega arith)
