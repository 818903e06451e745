-- ===== src/Mpls.antt =====
-- mpls.h and mpls_packet.c: the entries of a label stack, as words of 32 bits in the order of the host.
-- The fields of an entry do not overlap where they are in range, so `|` is a sum.
use tcp_fuzz.Prelude.{
  ℕ, ◌+◌, ◌*◌, ◌/◌, ◌%◌, ◌^◌, ◌==◌, if◌then◌else◌, ltb, leb, Bool, true, false, Option,
}
use tcp_fuzz.Prelude.{none, some, List, [], ◌∷◌, ◌++◌, ◌≡◌, ◌↔◌, arith, length, IsU32}
use tcp_fuzz.Prelude.Int.{ℤ, pos, negsuc}

unfoldable pub mpls_entry_label : ℕ → ℕ
mpls_entry_label entry = entry / 2 ^ 12 % 2 ^ 20

unfoldable pub mpls_entry_tc : ℕ → ℕ
mpls_entry_tc entry = entry / 2 ^ 9 % 2 ^ 3

unfoldable pub mpls_entry_stack : ℕ → Bool
mpls_entry_stack entry = entry / 2 ^ 8 % 2 == 1

unfoldable pub mpls_entry_ttl : ℕ → ℕ
mpls_entry_ttl entry = entry % 2 ^ 8

abbrev pub bit_of : Bool → ℕ
bit_of true = 1
bit_of false = 0

unfoldable pub mpls_entry_set : ℕ → ℕ → Bool → ℕ → ℕ
mpls_entry_set label traffic_class is_stack_bottom ttl =
    label * 2 ^ 12 + traffic_class * 2 ^ 9 + bit_of is_stack_bottom * 2 ^ 8 + ttl

-- A number from 0 up to the limit.
abbrev pub ranged : ℕ → ℤ → Option ℕ
ranged limit (negsuc n) = none
ranged limit (pos n) = if ltb n limit then some n else none

abbrev pub chain : {A B : Type 0} → Option A → (A → Option B) → Option B
chain none f = none
chain (some a) f = f a

-- `none` is STATUS_ERR.
unfoldable pub new_mpls_stack_entry : ℤ → ℤ → Bool → ℤ → Option ℕ
unfolding mpls_entry_set
new_mpls_stack_entry label traffic_class is_stack_bottom ttl =
    chain (ranged (2 ^ 20) label) λ label'. chain (ranged (2 ^ 3) traffic_class) λ traffic_class'.
      chain (ranged (2 ^ 8) ttl)
        λ ttl'. some (mpls_entry_set label' traffic_class' is_stack_bottom ttl')

-- `MPLS_STACK_MAX_ENTRIES`
abbrev pub mpls_stack_max_entries : ℕ
mpls_stack_max_entries = 6

-- The stack is the list of its entries. `none` is STATUS_ERR.
unfoldable pub mpls_stack_append : List ℕ → ℕ → Option (List ℕ)
mpls_stack_append stack mpls =
    if leb mpls_stack_max_entries (length stack) then none else some (stack ++ mpls ∷ [])

-- new_mpls_stack_entry yields an entry if and only if the label is from 0 up to 2^20 - 1, the traffic
-- class up to 7 and the time to live up to 255. The entry then fits into 32 bits, and each accessor reads
-- the value that was given.
pub new_mpls_stack_entry_iff :
    (label traffic_class ttl : ℤ) (is_stack_bottom : Bool) (entry : ℕ)
    → (new_mpls_stack_entry label traffic_class is_stack_bottom ttl ≡ some entry) ↔ (
        (label ≡ pos (mpls_entry_label entry))
        × (traffic_class ≡ pos (mpls_entry_tc entry))
        × (ttl ≡ pos (mpls_entry_ttl entry))
        × (mpls_entry_stack entry ≡ is_stack_bottom)
        × IsU32 entry)
unfolding new_mpls_stack_entry mpls_entry_set mpls_entry_label mpls_entry_tc mpls_entry_ttl
    mpls_entry_stack
new_mpls_stack_entry_iff label traffic_class ttl is_stack_bottom entry = ground arith
