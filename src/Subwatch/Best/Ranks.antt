-- ===== src/Subwatch/Best/Ranks.antt =====
-- The order of `orderBest` by the ranks that the code gives: the stable sort, and what it keeps.
use mathlib.Core.Path.{subst}
use vpn_director.Prelude.{
  Text, Bool, true, false, ◌&&◌, not, List, [], ◌∷◌, ◌≡◌, refl, sym, ap, ap₂, ◌∙◌, all, keep_if,
  map, arith, Bool-cases, inl, inr,
}
use mathlib.Core.List.{Perm}
use mathlib.Core.List.Perm
use vpn_director.VpnConfig.Servers.{Server, Kinds}
use vpn_director.Monitor.Evidence.{Evidence}
use vpn_director.Subwatch.Best.{
  BestRef, Ranked, ranks_before, insert_ranked, sort_ranked, servers_of, is_left_out, ranked,
  rank_each, order_best,
}

-- of one tier, and of one latency where it counts
unfoldable pub same_rank : Ranked → Ranked → Bool
same_rank a b = not (ranks_before a b) && not (ranks_before b a)

before_trans :
    (a b c : Ranked)
    → ranks_before b a ≡ false
    → ranks_before c b ≡ false
    → ranks_before c a ≡ false
unfolding ranks_before
before_trans a b c h g = ground arith

before_asym : (a b : Ranked) → ranks_before a b ≡ true → ranks_before b a ≡ false
unfolding ranks_before
before_asym a b h = ground arith

-- two that rank as a third do not come before one another
before_same :
    (a b c : Ranked) → same_rank a c ≡ true → same_rank b c ≡ true → ranks_before a b ≡ false
unfolding same_rank ranks_before
before_same a b c h g = ground arith

insert-perm : (x : Ranked) (ys : List Ranked) → Perm (x ∷ ys) (insert_ranked x ys)
unfolding insert_ranked
insert-perm x [] = Perm.refl (x ∷ [])
insert-perm x (y ∷ ys) = elim (Bool-cases (ranks_before y x)) [
  | inl e ↦ rw e (Perm.trans (Perm.swap y x ys) (Perm.cons y (insert-perm x ys)))
  | inr e ↦ rw e (Perm.refl (x ∷ y ∷ ys))
]

sort-perm : (xs : List Ranked) → Perm xs (sort_ranked xs)
unfolding sort_ranked
sort-perm [] = Perm.refl []
sort-perm (x ∷ xs) = Perm.trans (Perm.cons x (sort-perm xs)) (insert-perm x (sort_ranked xs))

-- none comes behind one that it ranks before
unfoldable pub is_sorted : List Ranked → Bool
is_sorted [] = true
is_sorted (x ∷ xs) = all (λ y. not (ranks_before y x)) xs && is_sorted xs

none_before_trans :
    (x y : Ranked) (ys : List Ranked)
    → ranks_before y x ≡ false
    → all (λ z. not (ranks_before z y)) ys ≡ true
    → all (λ z. not (ranks_before z x)) ys ≡ true
unfolding all
none_before_trans x y [] h a = refl
none_before_trans x y (z ∷ ys) h a =
    ground (arith, none_before_trans x y ys h, before_trans x y z h)

none_before-insert :
    (x y : Ranked) (ys : List Ranked)
    → ranks_before x y ≡ false
    → all (λ z. not (ranks_before z y)) ys ≡ true
    → all (λ z. not (ranks_before z y)) (insert_ranked x ys) ≡ true
unfolding all insert_ranked
none_before-insert x y [] h a = ground arith
none_before-insert x y (z ∷ ys) h a = ground (arith, none_before-insert x y ys h)

insert-sorted :
    (x : Ranked) (ys : List Ranked) → is_sorted ys ≡ true → is_sorted (insert_ranked x ys) ≡ true
unfolding is_sorted insert_ranked all
insert-sorted x [] h = refl
insert-sorted x (y ∷ ys) h = ground (
  arith,
  insert-sorted x ys,
  none_before-insert x y ys,
  none_before_trans x y ys,
  before_asym y x,
)

sort-sorted : (xs : List Ranked) → is_sorted (sort_ranked xs) ≡ true
unfolding sort_ranked is_sorted
sort-sorted [] = refl
sort-sorted (x ∷ xs) = insert-sorted x (sort_ranked xs) (sort-sorted xs)

-- those of one rank keep their order
insert-stable :
    (r x : Ranked) (ys : List Ranked)
    → keep_if (λ y. same_rank y r) (insert_ranked x ys) ≡ keep_if (λ y. same_rank y r) (x ∷ ys)
unfolding keep_if insert_ranked
insert-stable r x [] = refl
insert-stable r x (y ∷ ys) = ground (arith, insert-stable r x ys, before_same y x r)

sort-stable :
    (r : Ranked) (xs : List Ranked)
    → keep_if (λ y. same_rank y r) (sort_ranked xs) ≡ keep_if (λ y. same_rank y r) xs
unfolding sort_ranked keep_if
sort-stable r [] = refl
sort-stable r (x ∷ xs) = insert-stable r x (sort_ranked xs) ∙ ground (arith, sort-stable r xs)

module _ (kinds : Kinds) (key : Server → Text) (ref : BestRef) (e : Evidence) (ok : Bool) where
  abbrev IsOwn : Ranked → Type 0
  IsOwn r = ranked kinds key ref e ok r.server ≡ r

  -- each element ranks as its server does
  AreOwn : List Ranked → Type 0
  AreOwn [] = Unit {0}
  AreOwn (x ∷ xs) = IsOwn x × AreOwn xs

  insert-AreOwn :
      (x : Ranked) (ys : List Ranked) → IsOwn x → AreOwn ys → AreOwn (insert_ranked x ys)
  unfolding AreOwn insert_ranked
  insert-AreOwn x [] o h = (o, h)
  insert-AreOwn x (y ∷ ys) o h = elim (Bool-cases (ranks_before y x)) [
    | inl b ↦ rw b (h.0, insert-AreOwn x ys o h.1)
    | inr b ↦ rw b (o, h)
  ]

  sort-AreOwn : (xs : List Ranked) → AreOwn xs → AreOwn (sort_ranked xs)
  unfolding AreOwn sort_ranked
  sort-AreOwn [] h = h
  sort-AreOwn (x ∷ xs) h = insert-AreOwn x (sort_ranked xs) h.0 (sort-AreOwn xs h.1)

  rank_each-AreOwn : (cs : List Server) → AreOwn (rank_each kinds key ref e ok cs)
  unfolding AreOwn rank_each ranked
  rank_each-AreOwn [] = tt
  rank_each-AreOwn (c ∷ cs) = elim (Bool-cases (is_left_out kinds key ref e ok c)) [
    | inl b ↦ rw b (rank_each-AreOwn cs)
    | inr b ↦ rw b (refl, rank_each-AreOwn cs)
  ]

  unfoldable pub rank_all : List Server → List Ranked
  rank_all cs = map (ranked kinds key ref e ok) cs

  unfoldable pub not_left_out : List Server → List Server
  not_left_out = keep_if (λ c. not (is_left_out kinds key ref e ok c))

  unfoldable pub of_rank : Ranked → List Server → List Server
  of_rank r = keep_if (λ c. same_rank (ranked kinds key ref e ok c) r)

  rank_all-servers_of : (xs : List Ranked) → AreOwn xs → rank_all (servers_of xs) ≡ xs
  unfolding AreOwn rank_all servers_of
  rank_all-servers_of [] h = refl
  rank_all-servers_of (x ∷ xs) h = ap₂ (λ y ys. y ∷ ys) h.0 (rank_all-servers_of xs h.1)

  of_rank-servers_of :
      (r : Ranked) (xs : List Ranked)
      → AreOwn xs
      → of_rank r (servers_of xs) ≡ servers_of (keep_if (λ y. same_rank y r) xs)
  unfolding AreOwn of_rank servers_of keep_if
  of_rank-servers_of r [] h = refl
  of_rank-servers_of r (x ∷ xs) h = rw h.0 (elim (Bool-cases (same_rank x r)) [
    | inl b ↦ rw b (ap (λ t. x.server ∷ t) (of_rank-servers_of r xs h.1))
    | inr b ↦ rw b (of_rank-servers_of r xs h.1)
  ])

  servers_of-rank_each :
      (cs : List Server) → servers_of (rank_each kinds key ref e ok cs) ≡ not_left_out cs
  unfolding rank_each servers_of not_left_out keep_if ranked
  servers_of-rank_each [] = refl
  servers_of-rank_each (c ∷ cs) = elim (Bool-cases (is_left_out kinds key ref e ok c)) [
    | inl b ↦ rw b (servers_of-rank_each cs)
    | inr b ↦ rw b (ap (λ t. c ∷ t) (servers_of-rank_each cs))
  ]

  -- by the ranks that the code gives
  pub order_best-ranked :
      (copies : List Server) (r : Ranked)
      → Perm (not_left_out copies) (order_best kinds key ref e ok copies)
        × (is_sorted (rank_all (order_best kinds key ref e ok copies)) ≡ true)
        × (of_rank r (order_best kinds key ref e ok copies) ≡ of_rank r (not_left_out copies))
  unfolding order_best
  order_best-ranked copies r =
      let rs = rank_each kinds key ref e ok copies in
      let own = rank_each-AreOwn copies in
      let sorted_own = sort-AreOwn rs own in
      (
        subst (λ t. Perm t (servers_of (sort_ranked rs))) (servers_of-rank_each copies)
            (unfold servers_of in Perm.map (λ r. r.server) (sort-perm rs)),
        subst (λ t. is_sorted t ≡ true) (sym (rank_all-servers_of (sort_ranked rs) sorted_own))
            (sort-sorted rs),
        of_rank-servers_of r (sort_ranked rs) sorted_own
            ∙ ap servers_of (sort-stable r rs)
            ∙ sym (of_rank-servers_of r rs own)
            ∙ ap (of_rank r) (servers_of-rank_each copies),
      )
