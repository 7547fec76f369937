-- ===== src/Wire/Xtp/Cursor/Tests.antt =====
-- A packet of a branch of a byte and a text, and the theorems at it.
use xpute.Common.{ℕ, ◌+◌, ◌*◌, ◌≤◌, ◌≡◌, refl, some, List, [], ◌∷◌, ◌++◌, arith}
use xpute.Status.{Errno, Result, val, err, marshal_error}
use xpute.Codec.Utf8.{is_utf8, is_utf8_from, utf8_step, good_from}
use xpute.Wire.Xtp.{ScalarType}
use xpute.Wire.Xtp.Cursor.{Cursor, Span, Value, read_tree, child_at}
use xpute.Wire.Xtp.Cursor.Read.{get}
use xpute.Wire.Xtp.Cursor.Deep.{DeepValue, leaf, list, nil, cons, get_deep, nodes}
use xpute.Wire.Xtp.Cursor.Total.{read_tree-get_deep}
use xpute.Wire.Xtp.Cursor.Spans.{IsSound, get-IsSound}
use xpute.Wire.Xtp.Alone.Trees.{packet_alone}

abbrev greeting : List ℕ
greeting =
    0x58 ∷ 0x54 ∷ 0x50 ∷ 0 ∷ 0 ∷ 0 ∷ 0 ∷ 0 ∷ 48 ∷ 0 ∷ 0 ∷ 0 ∷ 0x20 ∷ 0 ∷ 0 ∷ 0 ∷ 2 ∷ 0 ∷ 0 ∷ 0 ∷ 0
    ∷ 0 ∷ 0 ∷ 0 ∷ 24 ∷ 0 ∷ 0 ∷ 0 ∷ 0x80 ∷ 0 ∷ 0 ∷ 0 ∷ 32 ∷ 0 ∷ 0 ∷ 0 ∷ 0xb9 ∷ 0 ∷ 0 ∷ 0 ∷ 7 ∷ 0 ∷ 0
    ∷ 0 ∷ 0 ∷ 0 ∷ 0 ∷ 0 ∷ 2 ∷ 0 ∷ 0 ∷ 0 ∷ 0 ∷ 0 ∷ 0 ∷ 0 ∷ 0x68 ∷ 0x69 ∷ 0 ∷ 0 ∷ 0 ∷ 0 ∷ 0 ∷ 0 ∷ []

abbrev root : Cursor
root = record { pkt = 64; base = 16; ty = 32; len = 2 }

abbrev text : Span
text = record { from = 56; size = 2 }

abbrev text_node : Cursor
text_node = record { pkt = 64; base = 48; ty = 0xb9; len = 0 }

abbrev tree : DeepValue
tree = list (cons (leaf (Value.number ScalarType.u8 7)) (cons (leaf (Value.str text)) nil))

greeting_opens : read_tree greeting 64 ≡ val root
unfolding read_tree
greeting_opens = refl

greeting-text : get greeting text_node ≡ val (Value.str text)
unfolding get is_utf8 is_utf8_from utf8_step good_from
greeting-text = refl

greeting-tree : get_deep greeting 2 root ≡ some (val tree)
unfolding get_deep is_utf8 is_utf8_from utf8_step good_from
greeting-tree = refl

-- A child past the count, and a packet of which a byte is lost.
greeting_past : child_at greeting root 2 ≡ err (marshal_error Errno.efault)
unfolding child_at
greeting_past = refl

greeting_cut : read_tree greeting 63 ≡ err (marshal_error Errno.ebadmsg)
unfolding read_tree
greeting_cut = refl

read_tree-get_deep_example :
    (r : Result DeepValue) × (get_deep greeting 64 root ≡ some r)
    × ((d : DeepValue) → r ≡ val d → 8 * nodes d + 8 ≤ 64)
unfolding read_tree
read_tree-get_deep_example = read_tree-get_deep greeting root (omega arith) refl

get-IsSound_example : IsSound greeting text_node (Value.str text)
unfolding get is_utf8 is_utf8_from utf8_step good_from
get-IsSound_example = get-IsSound greeting text_node refl

packet_alone_example :
    (read_tree (greeting ++ (1 ∷ 2 ∷ [])) 64 ≡ read_tree greeting 64)
    × ((c : Cursor) (f : ℕ)
        → read_tree greeting 64 ≡ val c
        → get_deep (greeting ++ (1 ∷ 2 ∷ [])) f c ≡ get_deep greeting f c)
packet_alone_example = packet_alone greeting (1 ∷ 2 ∷ []) (omega arith)
