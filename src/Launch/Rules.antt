-- ===== src/Launch/Rules.antt =====
-- The forwarder's rules as they are written on the command line.
use ech_tunnel.Base.{
  ℕ, true, false, List, [], ◌∷◌, ◌++◌, some, ◌≡◌, refl, ◌∙◌, arith, Bytes, codes, contains_byte,
  contains_byte-append, split, split-append, split_plain, trim_space_self, first_graphic,
  last_graphic, is_empty, trim_prefix, first_graphic-append, last_graphic-append,
}
use ech_tunnel.Launch.{Rule, add_rule, rules_of, parse_rules}

-- An address without the separators, that begins and ends with a visible character.
pub record IsAddress (s : Bytes) : Type 0 where
  pub starts : first_graphic s ≡ true
  pub ends : last_graphic s ≡ true
  pub no_comma : contains_byte b',' s ≡ false
  pub no_slash : contains_byte b'/' s ≡ false

abbrev pub AllAddresses : List Rule → Type 0
AllAddresses [] = Unit
AllAddresses (r ∷ rules) = IsAddress r.listen × IsAddress r.target × AllAddresses rules

-- `listen/target`, and the rules with commas between them.
abbrev pub rule_text : Rule → Bytes
rule_text r = r.listen ++ b'/' ∷ r.target

abbrev pub rules_text : Rule → List Rule → Bytes
rules_text r [] = rule_text r
rules_text r (next ∷ rules) = rule_text r ++ b',' ∷ rules_text next rules

split_first :
    (c : ℕ) (s t : Bytes) → contains_byte c s ≡ false → split c (s ++ c ∷ t) ≡ s ∷ split c t
unfolding split contains_byte
split_first c [] t h = ground arith
split_first c (x ∷ s) t h = ground (arith, split_first c s t)

target_end :
    (listen target : Bytes)
    → first_graphic target ≡ true
    → last_graphic target ≡ true
    → last_graphic (listen ++ b'/' ∷ target) ≡ true
target_end listen [] starts ends = cc
target_end listen (x ∷ target) starts ends = last_graphic-append listen b'/' (x ∷ target) ∙ ends

text_full : (s t : Bytes) → first_graphic s ≡ true → is_empty (s ++ t) ≡ false
text_full [] t starts = cc
text_full (x ∷ s) t starts = refl

rules_of-rule :
    (r : Rule) (texts : List Bytes) (rules : List Rule)
    → IsAddress r.listen
    → IsAddress r.target
    → rules_of texts ≡ some rules
    → rules_of (rule_text r ∷ texts) ≡ some (r ∷ rules)
unfolding rules_of add_rule
rules_of-rule r texts rules l t later =
    let trimmed =
      trim_space_self (rule_text r) (first_graphic-append r.listen (b'/' ∷ r.target) l.starts)
        (target_end r.listen r.target t.starts t.ends) in
    rw trimmed (
      rw (text_full r.listen (b'/' ∷ r.target) l.starts) (
        rw (split-append b'/' r.listen r.target l.no_slash t.no_slash, later)
          (rw (trim_space_self r.listen l.starts l.ends, trim_space_self r.target t.starts t.ends)
            refl)))

rule_text-plain :
    (r : Rule) → IsAddress r.listen → IsAddress r.target → contains_byte b',' (rule_text r) ≡ false
rule_text-plain r l t =
    contains_byte-append b',' r.listen (b'/' ∷ r.target) l.no_comma
      (unfold contains_byte in t.no_comma)

rules_of-text :
    (r : Rule) (rules : List Rule)
    → AllAddresses (r ∷ rules)
    → rules_of (split b',' (rules_text r rules)) ≡ some (r ∷ rules)
rules_of-text r [] (l, t, all) =
    rw (split_plain b',' (rule_text r) (rule_text-plain r l t))
      (rules_of-rule r [] [] l t (unfold rules_of in refl))
rules_of-text r (next ∷ rules) (l, t, all) =
    rw (split_first b',' (rule_text r) (rules_text next rules) (rule_text-plain r l t)) (
      rules_of-rule r (split b',' (rules_text next rules)) (next ∷ rules) l t
        (rules_of-text next rules all))

-- Rules that are written with `/` between listen address and target and with commas between them,
-- behind `tcp://`, are read back, all of them and in their order. No address holds a comma or a
-- slash, and each begins and ends with a visible character.
pub parse_rules-text :
    (r : Rule) (rules : List Rule)
    → AllAddresses (r ∷ rules)
    → parse_rules (codes "tcp://" ++ rules_text r rules) ≡ some (r ∷ rules)
unfolding parse_rules trim_prefix
parse_rules-text r rules all = rules_of-text r rules all
