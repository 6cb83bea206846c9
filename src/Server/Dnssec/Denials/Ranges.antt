-- ===== src/Server/Dnssec/Denials/Ranges.antt =====
-- The NSEC records against the sorted list of names.
use mathlib.Core.Path.{subst}
use skydns.Shared.{
  ℕ, ◌++◌, ◌≤◌, Text, dot, text_eq, ltb, false, List, [], ◌∷◌, Option, none, some, length,
  if◌then◌else◌, All, ◌≡◌, refl, ap, sym, ◌∙◌, arith,
}
use skydns.Registry.{Registry}
use skydns.Registry
use skydns.Registry.Nsec.{DenialReference, dotted}
use skydns.Registry.Nsec.Position.{Before, Sorted}
use skydns.Registry.Nsec.Gaps.{previous, get_nsec_gap, get_nsec_panics}
use skydns.Server.{Server}
use skydns.Server.Serve.{Rcode, success, name_error, Message}
use skydns.Server.Dnssec.Denials.{
  Denial, denial_of, domain_types, name_types, denied_key, new_nsec, deny, wildcard_denial,
  add_denials,
}

module _ (split_domain_name : Text → List Text) (s : Server) (qname : Text)
    (inside : s.domain_labels ≤ length (split_domain_name qname)) where
  abbrev pub key : Text
  key = denied_key split_domain_name s (split_domain_name qname)

  new_nsec_step :
      new_nsec split_domain_name s qname ≡ denial_of s (Registry.get_nsec s.registry key)
  unfolding new_nsec
  new_nsec_step =
      let test : ltb (length (split_domain_name qname)) s.domain_labels ≡ false = ground arith in
      rw (new_nsec, test) refl

  -- A name that falls between two of the sorted list is denied by the record from the one before it,
  -- or from the domain itself, to the one after it.
  pub new_nsec_gap :
      (b a : List DenialReference) (d : DenialReference)
      → s.registry.nsec ≡ b ++ d ∷ a
      → Sorted (b ++ d ∷ a)
      → All (λ e. Before e.name key) b
      → Before key d.name
      → new_nsec split_domain_name s qname
        ≡ some (
          previous b ++ (s.domain ++ dot ∷ []),
          dotted d.name ++ (s.domain ++ dot ∷ []),
          if text_eq (previous b) [] then domain_types else name_types,
        )
  new_nsec_gap b a d zone sorted lo hi =
      let found : Registry.get_nsec s.registry key ≡ some (previous b, dotted d.name) =
        unfold Registry.get_nsec in rw zone (get_nsec_gap b a d key sorted lo hi) in
      new_nsec_step ∙ ap (denial_of s) found

  deny-none :
      (m : Message) (second : Option Denial) (rcode : Rcode)
      → rcode ≡ name_error
      → deny split_domain_name s m none second rcode ≡ none
  deny-none m second name_error e = refl
  deny-none m second success e = cc

  -- A name that is denied and falls after every name of the list, which is not empty, is an index
  -- out of range in the handler of DNS requests.
  pub add_denials_panics :
      (d : DenialReference) (l : List DenialReference)
      → s.registry.nsec ≡ d ∷ l
      → Sorted (d ∷ l)
      → All (λ e. Before e.name key) (d ∷ l)
      → (split_offsets : Text → List ℕ) (m : Message) → m.qname ≡ qname
      → m.rcode ≡ name_error
      → add_denials split_domain_name split_offsets s m ≡ none
  unfolding add_denials
  add_denials_panics d l zone sorted lo split_offsets m named denied =
      let past_end : Registry.get_nsec s.registry key ≡ none =
        unfold Registry.get_nsec in rw zone (get_nsec_panics d l key sorted lo) in
      let none_found : new_nsec split_domain_name s qname ≡ none =
        new_nsec_step ∙ ap (denial_of s) past_end in
      let second = wildcard_denial split_domain_name s m.qname (split_offsets m.qname) in
      subst (λ n. deny split_domain_name s m (new_nsec split_domain_name s n) second m.rcode ≡ none)
        (sym named)
        (subst (λ o. deny split_domain_name s m o second m.rcode ≡ none) (sym none_found)
          (deny-none m second m.rcode denied))
