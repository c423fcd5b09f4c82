-- ===== src/VpnConfig/Moves/Texts.antt =====
-- Appending addresses that a list does not have yet.
use vpn_director.Prelude.{
  Text, Bool, true, false, ◌&&◌, ◌||◌, not, ◌≡◌, refl, List, [], ◌∷◌, ◌++◌, if◌then◌else◌, arith,
  ◌∙◌, text_eq, text_eq_iff, text_eq_refl, contains, contains-append, keep_if, keep_if-append, ap₂,
  append_assoc, append-nil, Bool-cases, inl, inr,
}
use vpn_director.VpnConfig.Failover.{append_new, append_all_new}

pub contains-append_new :
    (list : List Text) (ip s : Text)
    → contains (append_new list ip) s ≡ (contains list s || text_eq ip s)
unfolding append_new contains
contains-append_new list ip s = ground (arith, contains-append list (ip ∷ []) s, text_eq_iff ip s)

pub contains-append_all_new :
    (list ips : List Text) (s : Text)
    → contains (append_all_new list ips) s ≡ (contains list s || contains ips s)
unfolding append_all_new contains
contains-append_all_new list [] s = ground arith
contains-append_all_new list (ip ∷ ips) s =
    ground
      (arith, contains-append_all_new (append_new list ip) ips s, contains-append_new list ip s)

-- the addresses that `append_all_new` adds
unfoldable pub new_texts : List Text → List Text → List Text
new_texts list [] = []
new_texts list (ip ∷ ips) =
    let rest = new_texts (append_new list ip) ips in if contains list ip then rest else ip ∷ rest

pub append_all_new-new_texts :
    (list ips : List Text) → append_all_new list ips ≡ list ++ new_texts list ips
unfolding append_all_new new_texts append_new
append_all_new-new_texts list [] = ground (arith, append-nil list)
append_all_new-new_texts list (ip ∷ ips) = elim (Bool-cases (contains list ip)) [
  | inl old ↦ rw old (append_all_new-new_texts list ips)
  | inr new ↦
      rw new (append_all_new-new_texts (list ++ ip ∷ []) ips ∙ append_assoc list (ip ∷ []) _)
]

-- They are those of the second list that the first one lacks.
pub contains-new_texts :
    (list ips : List Text) (s : Text)
    → contains (new_texts list ips) s ≡ (contains ips s && not (contains list s))
unfolding new_texts contains
contains-new_texts list [] s = refl
contains-new_texts list (ip ∷ ips) s = ground (
  arith,
  contains-new_texts (append_new list ip) ips s,
  contains-append_new list ip s,
  text_eq_iff ip s,
)

-- A filter whose test holds of every member keeps the list; one that fails on all empties it.
pub keep_if_members :
    (p : Text → Bool) (xs : List Text)
    → ((s : Text) → contains xs s ≡ true → p s ≡ true)
    → keep_if p xs ≡ xs
unfolding keep_if contains
keep_if_members p [] h = refl
keep_if_members p (x ∷ xs) h =
    ground (arith, h x, keep_if_members p xs (λ s m. h s (ground arith)), text_eq_refl x)

pub keep_if_no_members :
    (p : Text → Bool) (xs : List Text)
    → ((s : Text) → contains xs s ≡ true → p s ≡ false)
    → keep_if p xs ≡ []
unfolding keep_if contains
keep_if_no_members p [] h = refl
keep_if_no_members p (x ∷ xs) h =
    ground (arith, h x, keep_if_no_members p xs (λ s m. h s (ground arith)), text_eq_refl x)

pub append_all_new_id :
    (list ips : List Text)
    → ((s : Text) → contains ips s ≡ true → contains list s ≡ true)
    → append_all_new list ips ≡ list
unfolding append_all_new append_new contains
append_all_new_id list [] h = refl
append_all_new_id list (ip ∷ ips) h =
    let e : contains list ip ≡ true = h ip (ground (arith, text_eq_refl ip)) in
    rw e (append_all_new_id list ips (λ s m. h s (ground arith)))

-- Taking the appended addresses off again leaves the list as it was.
pub remove-append_all_new :
    (list ips : List Text)
    → keep_if (λ ip. not (contains (new_texts list ips) ip)) (append_all_new list ips) ≡ list
remove-append_all_new list ips =
    rw (append_all_new-new_texts list ips, keep_if-append)
      (ap₂ ◌++◌ (keep_if_members _ list (λ s m. ground (arith, contains-new_texts list ips s)))
          (keep_if_no_members _ (new_texts list ips) (λ s m. ground arith))
        ∙ append-nil list)
