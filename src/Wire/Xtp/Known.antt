-- ===== src/Wire/Xtp/Known.antt =====
-- The types that the wire carries are those that have a name.
use xpute.Common.{
  ℕ, ◌<◌, ◌≡◌, ◌↔◌, refl, sym, ap, Bool, true, false, Option, none, some, List, [], ◌∷◌, ◌==◌,
  ==_iff, some_inj, is_some, is_none, Bool-cases, inl, inr, ◌∙◌, ◌^◌, if◌then◌else◌,
}
use xpute.Common.Range.{every, every-lt}
use xpute.Wire.Xtp.{
  ScalarType, SequenceType, SpecialType, scalar_type, sequence_type, special_type, type_is_known,
  type_is_leaf, type_is_seq, type_arg_of, int_type, float_type, nonnum_type,
}

-- A node's type with its name.
pub data Kind : Type 0 where
  nil branch : Kind
  scalar : ScalarType → Kind
  sequence : SequenceType → Kind

abbrev pub kind_type : Kind → ℕ
kind_type Kind.nil = special_type SpecialType.nil
kind_type Kind.branch = special_type SpecialType.branch
kind_type (scalar s) = scalar_type s
kind_type (sequence s) = sequence_type s

abbrev kinds : List Kind
kinds =
    Kind.nil
    ∷ Kind.branch
    ∷ scalar ScalarType.u8
    ∷ scalar ScalarType.i8
    ∷ scalar ScalarType.u16
    ∷ scalar ScalarType.i16
    ∷ scalar ScalarType.u32
    ∷ scalar ScalarType.i32
    ∷ scalar ScalarType.u64
    ∷ scalar ScalarType.i64
    ∷ scalar ScalarType.f32
    ∷ scalar ScalarType.f64
    ∷ scalar ScalarType.boolean
    ∷ sequence SequenceType.u8_array
    ∷ sequence SequenceType.i8_array
    ∷ sequence SequenceType.u16_array
    ∷ sequence SequenceType.i16_array
    ∷ sequence SequenceType.u32_array
    ∷ sequence SequenceType.i32_array
    ∷ sequence SequenceType.u64_array
    ∷ sequence SequenceType.i64_array
    ∷ sequence SequenceType.f32_array
    ∷ sequence SequenceType.f64_array
    ∷ sequence SequenceType.bitset
    ∷ sequence SequenceType.str
    ∷ sequence SequenceType.strs
    ∷ []

-- The first of some kinds that has the type.
abbrev named_as : ℕ → List Kind → Option Kind
named_as t [] = none
named_as t (k ∷ ks) = if kind_type k == t then some k else named_as t ks

named_as-some : (t : ℕ) (ks : List Kind) (k : Kind) → named_as t ks ≡ some k → kind_type k ≡ t
named_as-some t [] k e = absurd (cc)
named_as-some t (j ∷ ks) k e = elim (Bool-cases (kind_type j == t)) [
  | inl h ↦
      let same : named_as t (j ∷ ks) ≡ some j = rw h refl in
      ap kind_type (some_inj (sym e ∙ same)) ∙ (==_iff (kind_type j) t).0 h
  | inr h ↦
      named_as-some t ks k
        (let rest : named_as t (j ∷ ks) ≡ named_as t ks = rw h refl in sym rest ∙ e)
]

scalar-named : (s : ScalarType) → named_as (scalar_type s) kinds ≡ some (scalar s)
unfolding scalar_type sequence_type int_type float_type nonnum_type
scalar-named ScalarType.u8 = refl
scalar-named _ = refl

sequence-named : (s : SequenceType) → named_as (sequence_type s) kinds ≡ some (sequence s)
unfolding scalar_type sequence_type int_type float_type nonnum_type
sequence-named SequenceType.u8_array = refl
sequence-named _ = refl

kind-named : (k : Kind) → named_as (kind_type k) kinds ≡ some k
kind-named Kind.nil = refl
kind-named Kind.branch = refl
kind-named (scalar s) = scalar-named s
kind-named (sequence s) = sequence-named s

-- Whether the test says of a number what the names do.
abbrev agrees : ℕ → Bool
agrees t = if type_is_known t then is_some (named_as t kinds) else is_none (named_as t kinds)

all_agree : every agrees (2 ^ 8) ≡ true
unfolding every type_is_known type_is_leaf type_is_seq type_arg_of scalar_type sequence_type
    int_type float_type nonnum_type
all_agree = refl

-- A byte is a type that the wire carries exactly where it is that of a named kind, a scalar, a sequence, a
-- branch or the untyped null, and two kinds have no type in common.
pub type_is_known-Kind :
    (t : ℕ)
    → t < 2 ^ 8
    → ((type_is_known t ≡ true) ↔ ((k : Kind) × (kind_type k ≡ t)))
      × ((j k : Kind) → kind_type j ≡ kind_type k → j ≡ k)
type_is_known-Kind t h =
    let s = both (type_is_known t) (named_as t kinds) (every-lt agrees (2 ^ 8) t all_agree h) in
    (
      (
        λ e. there (named_as t kinds) refl (sym s ∙ e),
        λ (k, e). s ∙ ap is_some (ap (λ n. named_as n kinds) (sym e) ∙ kind-named k),
      ),
      λ j k e. some_inj (sym (kind-named j) ∙ ap (λ n. named_as n kinds) e ∙ kind-named k),
    )
  where
    both :
        (b : Bool) (o : Option Kind) → (if b then is_some o else is_none o) ≡ true → b ≡ is_some o
    both true o e = sym e
    both false none e = refl
    both false (some k) e = absurd (cc)

    there :
        (o : Option Kind) → named_as t kinds ≡ o → is_some o ≡ true → (k : Kind) × (kind_type k ≡ t)
    there none e s = absurd (cc)
    there (some k) e s = (k, named_as-some t kinds k e)
