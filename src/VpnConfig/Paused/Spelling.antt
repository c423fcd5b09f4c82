-- ===== src/VpnConfig/Paused/Spelling.antt =====
-- What a repointed pause list holds.
use vpn_director.Prelude.{
  Text, Bool, true, false, ◌≡◌, refl, ◌&&◌, ◌||◌, not, List, [], ◌∷◌, ◌++◌, text_eq, text_eq_iff,
  contains, contains-append, any, keep_if, arith, ◌∙◌, none, some, Bool-cases, inl, inr,
}
use vpn_director.VpnConfig.Config.{ClientInfo}
use vpn_director.VpnConfig.Address.{addr_key, same_addr}
use vpn_director.VpnConfig.Paused.{stored_spelling, respelled, repoint_loop, repoint_paused_clients}

-- no text is listed twice
unfoldable pub distinct_texts : List Text → Bool
distinct_texts [] = true
distinct_texts (x ∷ xs) = not (contains xs x) && distinct_texts xs

contains-repoint_loop :
    (clients : List ClientInfo) (paused out : List Text) (x : Text)
    → contains (repoint_loop clients paused out) x
      ≡ (contains out x || any (λ entry. text_eq (respelled clients entry) x) paused)
unfolding repoint_loop contains any
contains-repoint_loop clients [] out x = ground arith
contains-repoint_loop clients (entry ∷ paused) out x = ground (
  arith,
  contains-repoint_loop clients paused out x,
  contains-repoint_loop clients paused (out ++ respelled clients entry ∷ []) x,
  contains-append out (respelled clients entry ∷ []) x,
  text_eq_iff (respelled clients entry) x,
)

distinct_texts-append :
    (xs : List Text) (x : Text)
    → distinct_texts xs ≡ true
    → contains xs x ≡ false
    → distinct_texts (xs ++ x ∷ []) ≡ true
unfolding distinct_texts contains
distinct_texts-append [] x d n = refl
distinct_texts-append (y ∷ xs) x d n = ground (
  arith,
  distinct_texts-append xs x,
  contains-append xs (x ∷ []) y,
  text_eq_iff x y,
  text_eq_iff y x,
)

distinct_texts-repoint_loop :
    (clients : List ClientInfo) (paused out : List Text)
    → distinct_texts out ≡ true
    → distinct_texts (repoint_loop clients paused out) ≡ true
unfolding repoint_loop
distinct_texts-repoint_loop clients [] out d = d
distinct_texts-repoint_loop clients (entry ∷ paused) out d = ground (
  arith,
  distinct_texts-repoint_loop clients paused out d,
  distinct_texts-repoint_loop clients paused (out ++ respelled clients entry ∷ []),
  distinct_texts-append out (respelled clients entry) d,
)

-- the clients whose address is the entry's, and the spelling of the first, or else the entry's own
unfoldable pub clients_at : List ClientInfo → Text → List ClientInfo
clients_at clients entry = keep_if (λ c. same_addr c.ip entry) clients

unfoldable pub spelling : List ClientInfo → Text → Text
spelling clients entry = elim (clients_at clients entry) [ [] ↦ entry | c ∷ cs ↦ c.ip ]

stored_spelling_lem :
    (clients : List ClientInfo) (entry : Text)
    → stored_spelling clients (addr_key entry)
      ≡ elim (clients_at clients entry) [ [] ↦ none | c ∷ cs ↦ some c.ip ]
unfolding stored_spelling clients_at keep_if
stored_spelling_lem [] entry = refl
stored_spelling_lem (c ∷ clients) entry =
    elim (Bool-cases (text_eq (addr_key c.ip) (addr_key entry))) [
      | inl y ↦ rw y refl
      | inr n ↦ rw n (stored_spelling_lem clients entry)
    ]

respelled_at :
    (clients : List ClientInfo) (entry : Text) (cs : List ClientInfo)
    → clients_at clients entry ≡ cs
    → respelled clients entry ≡ spelling clients entry
unfolding respelled spelling
respelled_at clients entry [] e = ground (arith, stored_spelling_lem clients entry)
respelled_at clients entry (c ∷ cs) e = ground (arith, stored_spelling_lem clients entry)

any-respelled :
    (clients : List ClientInfo) (paused : List Text) (x : Text)
    → any (λ entry. text_eq (respelled clients entry) x) paused
      ≡ any (λ entry. text_eq (spelling clients entry) x) paused
unfolding any
any-respelled clients [] x = refl
any-respelled clients (entry ∷ paused) x = ground (
  arith,
  any-respelled clients paused x,
  respelled_at clients entry (clients_at clients entry) refl,
)

-- The list holds exactly these texts, none of them twice: for each paused entry the spelling of the
-- first client of the same address, and the entry as it stands where no client has its address.
pub contains-repoint_paused_clients :
    (clients : List ClientInfo) (paused : List Text) (x : Text)
    → (contains (repoint_paused_clients paused clients) x
        ≡ any (λ entry. text_eq (spelling clients entry) x) paused)
      × (distinct_texts (repoint_paused_clients paused clients) ≡ true)
unfolding repoint_paused_clients
contains-repoint_paused_clients clients paused x = (
  ground (arith, contains-repoint_loop clients paused [] x, nothing)
      ∙ any-respelled clients paused x,
  distinct_texts-repoint_loop clients paused [] (unfold distinct_texts in refl),
)
  where
    nothing : contains [] x ≡ false
    nothing = unfold contains in refl
