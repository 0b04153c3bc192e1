-- ===== src/Codec/Safe/Methods.antt =====
-- Every method of the Reader is bounded and sticky.
use gomc.Prelude.{
  ℕ, zero, suc, ◌+◌, ◌≡◌, refl, ap, arith, ℤ, pos, negsuc, Option, some, none, List, length,
}
use gomc.Prelude.{ltb, Bool-cases, inl, inr, if◌then◌else◌, take, drop, get_or, [], ◌∷◌}
use gomc.Codec.Reader
use gomc.Codec.Reader.{Reader, Read, Error, ◌>>=◌, pure, unless_nil, add_group}
use gomc.Codec.Safe.Rules.{IsValid, Grows, Grows-refl, Bounded, Sticky, pure-Bounded, pure-Sticky}
use gomc.Codec.Safe.Rules.{set_error-Bounded, when-Bounded, unless_nil-Bounded, if_failed-Bounded}
use gomc.Codec.Safe.Rules.{if_failed-Sticky, if_failed-some, bounded_rules, sticky_rules}
use gomc.Codec.Safe.Rules.{bind-Bounded, bind-Sticky}

module _ (n : ℕ) (r : Reader) (v : IsValid r) where
  advance :
      Grows r
        (if ltb (length r.input) (r.pos + n)
          then Reader.set_error {A = Option (List ℕ)} Error.truncated none r
          else (some (take n (drop r.pos r.input)), record r { pos = r.pos + n })).1
  unfolding Reader.set_error
  advance = elim (Bool-cases (ltb (length r.input) (r.pos + n))) [
    | inl short ↦ rw short (Grows-refl' r v)
    | inr enough ↦
        rw enough (record { input = refl; forward = omega arith; bounded = ground arith })
  ]
    where
      Grows-refl' : (s : Reader) → IsValid s → Grows s (record s { err = some Error.truncated })
      Grows-refl' s w = record { input = refl; forward = omega arith; bounded = w }

pub take-Bounded : (n : ℤ) → Bounded (Reader.take n)
unfolding Reader.take
take-Bounded (negsuc n) = if_failed-Bounded none _ (set_error-Bounded Error.negative_length none)
take-Bounded (pos n) = if_failed-Bounded none _ (record { grows = advance n })

take_failed : (n : ℤ) (r : Reader) {e : Error} → r.err ≡ some e → Reader.take n r ≡ (none, r)
unfolding Reader.take
take_failed (negsuc n) r p = if_failed-some none _ r p
take_failed (pos n) r p = if_failed-some none _ r p

pub take-Sticky : (n : ℤ) → Sticky (Reader.take n)
take-Sticky n = record {
  sticky = λ r p. ap (λ (t : Option (List ℕ) × Reader). t.1) (take_failed n r p);
}

-- What follows a `take` on a failed reader is the answer to nil.
pub take_bind-Sticky :
    {A : Type 0} (n : ℤ) (a : A) (k : List ℕ → Read A) → Sticky (Reader.take n >>= unless_nil a k)
unfolding ◌>>=◌ unless_nil pure
take_bind-Sticky n a k = record { sticky = λ r p. simp (take_failed n r p) }

ruleset takes = (bounded_rules, take-Bounded)

ruleset take_fails = (sticky_rules, take-Sticky, take_bind-Sticky)

pub fixed-Bounded : (n : ℕ) → Bounded (Reader.fixed n)
unfolding Reader.fixed
fixed-Bounded n = search takes

pub fixed-Sticky : (n : ℕ) → Sticky (Reader.fixed n)
unfolding Reader.fixed
fixed-Sticky n = search take_fails

pub raw_byte-Bounded : Bounded Reader.raw_byte
unfolding Reader.raw_byte
raw_byte-Bounded = search takes

pub raw_byte-Sticky : Sticky Reader.raw_byte
unfolding Reader.raw_byte
raw_byte-Sticky = search take_fails

pub bool-Bounded : Bounded Reader.bool
unfolding Reader.bool
bool-Bounded = search (bounded_rules, raw_byte-Bounded)

pub bool-Sticky : Sticky Reader.bool
unfolding Reader.bool
bool-Sticky = search (sticky_rules, raw_byte-Sticky)

var_loop-Bounded :
    (w : ℕ) (e : Error) (rounds result shift : ℕ)
    → Bounded (Reader.var_loop w e rounds result shift)
unfolding Reader.var_loop
var_loop-Bounded w e zero result shift = set_error-Bounded e 0
var_loop-Bounded w e (suc rounds) result shift = bind-Bounded _ (take-Bounded (pos 1)) λ o.
    unless_nil-Bounded 0 _ o λ bytes.
      when-Bounded _ _ _ (pure-Bounded _)
        (var_loop-Bounded w e rounds (add_group w result (get_or bytes 0 0) shift) (shift + 7))

pub var_int-Bounded : Bounded Reader.var_int
unfolding Reader.var_int
var_int-Bounded = var_loop-Bounded 32 Error.var_int_too_long 5 0 0

pub var_int-Sticky : Sticky Reader.var_int
unfolding Reader.var_int Reader.var_loop
var_int-Sticky = take_bind-Sticky (pos 1) 0 _

pub var_long-Bounded : Bounded Reader.var_long
unfolding Reader.var_long
var_long-Bounded = var_loop-Bounded 64 Error.var_long_too_long 10 0 0

pub var_long-Sticky : Sticky Reader.var_long
unfolding Reader.var_long Reader.var_loop
var_long-Sticky = take_bind-Sticky (pos 1) 0 _

pub string-Bounded : (max_len : ℕ) → Bounded (Reader.string max_len)
unfolding Reader.string
string-Bounded max_len = search (takes, var_int-Bounded) depth 9

pub string-Sticky : (max_len : ℕ) → Sticky (Reader.string max_len)
unfolding Reader.string
string-Sticky max_len = search (sticky_rules, var_int-Sticky)

pub uuid-Bounded : Bounded Reader.uuid
unfolding Reader.uuid
uuid-Bounded = search takes

pub uuid-Sticky : Sticky Reader.uuid
unfolding Reader.uuid
uuid-Sticky = search take_fails

pub position-Bounded : Bounded Reader.position
unfolding Reader.position
position-Bounded = search (bounded_rules, fixed-Bounded)

pub position-Sticky : Sticky Reader.position
unfolding Reader.position
position-Sticky = search (sticky_rules, fixed-Sticky)

pub byte_array-Bounded : Bounded Reader.byte_array
unfolding Reader.byte_array Reader.raw
byte_array-Bounded = search (takes, var_int-Bounded)

pub byte_array-Sticky : Sticky Reader.byte_array
unfolding Reader.byte_array Reader.raw
byte_array-Sticky = search (take_fails, var_int-Sticky)

pub raw-Bounded : (n : ℤ) → Bounded (Reader.raw n)
unfolding Reader.raw
raw-Bounded = take-Bounded

pub raw-Sticky : (n : ℤ) → Sticky (Reader.raw n)
unfolding Reader.raw
raw-Sticky = take-Sticky

pub remaining_bytes-Bounded : Bounded Reader.remaining_bytes
unfolding Reader.remaining_bytes
remaining_bytes-Bounded = if_failed-Bounded none _ (record { grows = λ r. (raw-Bounded _).grows r })

pub remaining_bytes-Sticky : Sticky Reader.remaining_bytes
unfolding Reader.remaining_bytes
remaining_bytes-Sticky = if_failed-Sticky none _

longs-Bounded : (n : ℕ) → Bounded (Reader.longs n)
unfolding Reader.longs
longs-Bounded zero = pure-Bounded []
longs-Bounded (suc n) =
    bind-Bounded _ (fixed-Bounded 8)
      λ l. bind-Bounded _ (longs-Bounded n) λ ls. pure-Bounded (l ∷ ls)

pub bit_set-Bounded : Bounded Reader.bit_set
unfolding Reader.bit_set
bit_set-Bounded = search (bounded_rules, var_int-Bounded, longs-Bounded) depth 9

pub bit_set-Sticky : Sticky Reader.bit_set
unfolding Reader.bit_set
bit_set-Sticky = search (sticky_rules, var_int-Sticky)

pub ruleset bounded_methods = (
  bounded_rules, take-Bounded, fixed-Bounded, raw_byte-Bounded, bool-Bounded, var_int-Bounded,
  var_long-Bounded, string-Bounded, uuid-Bounded, position-Bounded, raw-Bounded, byte_array-Bounded,
  remaining_bytes-Bounded, bit_set-Bounded,
)

pub ruleset sticky_methods = (
  sticky_rules, take-Sticky, fixed-Sticky, raw_byte-Sticky, bool-Sticky, var_int-Sticky,
  var_long-Sticky, string-Sticky, uuid-Sticky, position-Sticky, raw-Sticky, byte_array-Sticky,
  remaining_bytes-Sticky, bit_set-Sticky,
)
