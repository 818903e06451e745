-- ===== src/Verify/Gre.antt =====
-- GRE headers and label stacks that agree, and verify_gre and verify_mpls against that.
use tcp_fuzz.Prelude.{
  ℕ, zero, suc, ◌+◌, ◌-◌, ◌/◌, ◌%◌, ◌==◌, ◌||◌, ◌&&◌, Bool, true, false, some, List, [], ◌∷◌, ◌≡◌,
  sym,
}
use tcp_fuzz.Prelude.{◌↔◌, arith, get_or, ==→eq, ==_refl}
use tcp_fuzz.Prelude.Fail.{◌>>◌, guard}
use tcp_fuzz.Parser.Layer4.{bit, gre_len}
use tcp_fuzz.Verify.{GreHeader}
use tcp_fuzz.Verify.Headers.{has_gre_len, check_words, verify_gre, verify_mpls, same_entries}

-- As many words as the flags of a header announce.
abbrev pub read_words : ℕ → ℕ → List ℕ → List ℕ
read_words zero i words = []
read_words (suc count) i words = get_or words i 0 ∷ read_words count (suc i) words

abbrev pub gre_words : GreHeader → List ℕ
gre_words gre = read_words ((gre_len gre.flags - 4) / 4) 0 gre.words

pub record GreAgrees (actual script : GreHeader) : Type 0 where
  pub same_flags : actual.flags ≡ script.flags
  pub same_version : actual.version ≡ script.version
  pub same_proto : actual.proto ≡ script.proto
  pub no_version : script.version % 8 ≡ 0
  pub no_routing : bit 64 script.flags ≡ false
  pub same_words : gre_words actual ≡ gre_words script

abbrev word_if : Bool → ℕ
word_if true = 1
word_if false = 0

words_iff :
    (sum key seq : Bool) (actual script : List ℕ)
    → (check_words sum key seq actual script ≡ true) ↔ (
        read_words (word_if sum + word_if key + word_if seq) 0 actual
        ≡ read_words (word_if sum + word_if key + word_if seq) 0 script)
unfolding check_words
words_iff true true true actual script = ground arith
words_iff true true false actual script = ground arith
words_iff true false true actual script = ground arith
words_iff true false false actual script = ground arith
words_iff false true true actual script = ground arith
words_iff false true false actual script = ground arith
words_iff false false true actual script = ground arith
words_iff false false false actual script = ground arith

gre_len-words :
    (flags : ℕ)
    → (gre_len flags - 4) / 4
      ≡ word_if (bit 128 flags || bit 64 flags) + word_if (bit 32 flags) + word_if (bit 16 flags)
unfolding gre_len
gre_len-words flags = ground arith

gre_words_iff :
    (a s : GreHeader)
    → a.flags ≡ s.flags
    → (check_words
          (bit 128 s.flags || bit 64 s.flags)
          (bit 32 s.flags)
          (bit 16 s.flags)
          a.words
          s.words
        ≡ true)
      ↔ (gre_words a ≡ gre_words s)
gre_words_iff a s e =
    rw (e, gre_len-words s.flags)
      (words_iff (bit 128 s.flags || bit 64 s.flags) (bit 32 s.flags) (bit 16 s.flags) a.words
        s.words)

-- The tests of verify_gre are made one after the other.
tests_iff :
    (has_s has_a len flags version proto words : Bool)
    → ((guard has_s >> guard has_a >> some (len && ((flags && version) && (proto && words))))
        ≡ some true)
      ↔ ((has_s ≡ true)
          × (has_a ≡ true)
          × (len ≡ true)
          × (flags ≡ true)
          × (version ≡ true)
          × (proto ≡ true)
          × (words ≡ true))
tests_iff has_s has_a len flags version proto words = ground arith

has_gre_len_iff :
    (s : GreHeader) → (has_gre_len s ≡ true) ↔ ((s.version % 8 ≡ 0) × (bit 64 s.flags ≡ false))
unfolding has_gre_len
has_gre_len_iff s = ground arith

gre_tests_iff :
    (a s : GreHeader)
    → (verify_gre a s ≡ some true) ↔ (
        (has_gre_len s ≡ true)
        × (has_gre_len a ≡ true)
        × ((gre_len a.flags == gre_len s.flags) ≡ true)
        × ((s.flags == a.flags) ≡ true)
        × ((s.version == a.version) ≡ true)
        × ((s.proto == a.proto) ≡ true)
        × (check_words
              (bit 128 s.flags || bit 64 s.flags)
              (bit 32 s.flags)
              (bit 16 s.flags)
              a.words
              s.words
            ≡ true))
unfolding verify_gre
gre_tests_iff a s =
    tests_iff (has_gre_len s) (has_gre_len a) (gre_len a.flags == gre_len s.flags)
      (s.flags == a.flags) (s.version == a.version) (s.proto == a.proto)
      (check_words (bit 128 s.flags || bit 64 s.flags) (bit 32 s.flags) (bit 16 s.flags) a.words
        s.words)

pub gre_iff : (a s : GreHeader) → (verify_gre a s ≡ some true) ↔ GreAgrees a s
gre_iff a s = (
  λ h.
      let (hs, ha, len, flags, version, proto, words) = (gre_tests_iff a s).0 h in
      let e = sym (==→eq s.flags a.flags flags) in
      record {
        same_flags = e;
        same_version = sym (==→eq s.version a.version version);
        same_proto = sym (==→eq s.proto a.proto proto);
        no_version = ((has_gre_len_iff s).0 hs).0;
        no_routing = ((has_gre_len_iff s).0 hs).1;
        same_words = (gre_words_iff a s e).0 words;
      },
  λ h. (gre_tests_iff a s).1 (
    (has_gre_len_iff s).1 (h.no_version, h.no_routing),
    (has_gre_len_iff a).1 (rw (h.same_version) h.no_version, rw (h.same_flags) h.no_routing),
    rw (h.same_flags) (==_refl (gre_len s.flags)),
    rw (h.same_flags) (==_refl s.flags),
    rw (h.same_version) (==_refl s.version),
    rw (h.same_proto) (==_refl s.proto),
    (gre_words_iff a s h.same_flags).1 h.same_words,
  ),
)

-- Two lists of entries are the same if their lengths and the entries, one by one, are.
pub mpls_iff : (actual script : List ℕ) → (verify_mpls actual script ≡ true) ↔ (actual ≡ script)
unfolding verify_mpls same_entries
mpls_iff [] [] = ground arith
mpls_iff [] (s ∷ script) = ground arith
mpls_iff (a ∷ actual) [] = ground arith
mpls_iff (a ∷ actual) (s ∷ script) = ground (arith, mpls_iff actual script)
