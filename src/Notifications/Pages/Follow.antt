-- ===== src/Notifications/Pages/Follow.antt =====
-- A reader that follows the cursors.
use mathlib.Core.Path.{subst}
use vpn_director.Prelude.{
  ℕ, zero, suc, ◌+◌, ◌<◌, Text, Bool, true, false, ◌&&◌, ◌||◌, not, Option, none, some, List, [],
  ◌∷◌, ◌++◌, ◌≡◌, ◌∙◌, sym, ap, refl, ◌==◌, ltb, leb, length, length-append, all, all-append,
  append_assoc, append-nil, arith, Bool-cases, inl, inr,
}
use vpn_director.Notifications.Pages.{
  Message, Cursor, Sizes, Page, page, cursor_of, is_past, stop_at, next_size, delta,
  is_some_message, fill, follow, page_size, max_page_bytes,
}

unfoldable pub is_before : Message → Message → Bool
is_before a b =
    ltb a.chat_id b.chat_id
    || (a.chat_id == b.chat_id && ltb a.event.event_id.sequence b.event.event_id.sequence)

-- by chat, and within a chat by sequence, none twice
unfoldable pub is_ordered : List Message → Bool
is_ordered [] = true
is_ordered (m ∷ rest) = all (is_before m) rest && is_ordered rest

-- the message leaves room in a page of its own
unfoldable pub fits_alone : Sizes → Text → Message → Bool
fits_alone sizes epoch m =
    ltb (sizes.empty_page + 1 + sizes.message m + sizes.cursor (cursor_of epoch m)) max_page_bytes

unfoldable last_or : Option Message → List Message → Option Message
last_or last [] = last
last_or last (m ∷ rest) = last_or (some m) rest

unfoldable outcome : Text → List Message → Option Message → List Message → Page
outcome epoch taken last [] = page taken none
outcome epoch taken last (m ∷ rest) = stop_at epoch taken last

past_before :
    (epoch : Text) (a b : Message)
    → is_before a b ≡ true
    → is_past (some (cursor_of epoch b)) a ≡ true
unfolding is_before is_past cursor_of
past_before epoch a b h = ground arith

past_self : (epoch : Text) (m : Message) → is_past (some (cursor_of epoch m)) m ≡ true
unfolding is_past cursor_of
past_self epoch m = ground arith

not_past_after :
    (epoch : Text) (a b : Message)
    → is_before a b ≡ true
    → is_past (some (cursor_of epoch a)) b ≡ false
unfolding is_before is_past cursor_of
not_past_after epoch a b h = ground arith

none_past_after :
    (epoch : Text) (m : Message) (ys : List Message)
    → all (is_before m) ys ≡ true
    → all (λ y. not (is_past (some (cursor_of epoch m)) y)) ys ≡ true
unfolding all
none_past_after epoch m [] h = refl
none_past_after epoch m (y ∷ ys) h =
    ground (arith, none_past_after epoch m ys, not_past_after epoch m y)

-- a cursor at a message of an ordered list
split_past :
    (epoch : Text) (xs : List Message) (m : Message) (ys : List Message)
    → is_ordered (xs ++ m ∷ ys) ≡ true
    → (all (is_past (some (cursor_of epoch m))) (xs ++ m ∷ []) ≡ true)
      × (all (λ y. not (is_past (some (cursor_of epoch m)) y)) ys ≡ true)
unfolding is_ordered all
split_past epoch [] m ys h = ground (arith, past_self epoch m, none_past_after epoch m ys)
split_past epoch (x ∷ xs) m ys h =
    ground
      (arith, split_past epoch xs m ys, all-append (is_before x) xs (m ∷ ys), past_before epoch x m)

none_skipped : all (is_past none) [] ≡ true
unfolding all
none_skipped = refl

none_past : (messages : List Message) → all (λ y. not (is_past none y)) messages ≡ true
unfolding all is_past
none_past [] = refl
none_past (m ∷ rest) = none_past rest

module _ (sizes : Sizes) (epoch : Text) where
  module _ (c : Option Cursor) (m : Message) (rest taken : List Message) (last : Option Message)
      (encoded : ℕ) where
    is_full : Bool
    is_full =
        length taken == page_size
        || leb max_page_bytes (encoded + delta sizes last m + next_size sizes epoch m rest)

    fill_skip :
        is_past c m ≡ true
        → fill sizes epoch c (m ∷ rest) taken last encoded
          ≡ fill sizes epoch c rest taken last encoded
    unfolding fill
    fill_skip h = rw h refl

    fill_stop :
        is_past c m ≡ false
        → is_full ≡ true
        → fill sizes epoch c (m ∷ rest) taken last encoded ≡ stop_at epoch taken last
    unfolding fill is_full
    fill_stop h f = rw (h, f) refl

    fill_take :
        is_past c m ≡ false
        → is_full ≡ false
        → fill sizes epoch c (m ∷ rest) taken last encoded
          ≡ fill sizes epoch c rest (taken ++ m ∷ []) (some m) (encoded + delta sizes last m)
    unfolding fill is_full
    fill_take h f = rw (h, f) refl

  fill_skips :
      (c : Option Cursor) (pre suf taken : List Message) (last : Option Message) (encoded : ℕ)
      → all (is_past c) pre ≡ true
      → fill sizes epoch c (pre ++ suf) taken last encoded
        ≡ fill sizes epoch c suf taken last encoded
  unfolding all
  fill_skips c [] suf taken last encoded h = refl
  fill_skips c (m ∷ pre) suf taken last encoded h =
      fill_skip c m (pre ++ suf) taken last encoded (ground arith)
      ∙ fill_skips c pre suf taken last encoded (ground arith)

  split_on :
      (c : Option Cursor) (m : Message) (rest taken : List Message) (last : Option Message)
      (encoded : ℕ)
      → is_past c m ≡ false
      → (got : List Message) × (left : List Message) × (rest ≡ got ++ left)
        × (fill sizes epoch c rest (taken ++ m ∷ []) (some m) (encoded + delta sizes last m)
            ≡ outcome epoch ((taken ++ m ∷ []) ++ got) (last_or (some m) got) left)
      → (got : List Message) × (left : List Message) × (m ∷ rest ≡ got ++ left)
        × (fill sizes epoch c (m ∷ rest) taken last encoded
            ≡ outcome epoch (taken ++ got) (last_or last got) left)
  unfolding outcome last_or
  split_on c m rest taken last encoded new (got, left, same, filled) =
      elim (Bool-cases (is_full c m rest taken last encoded)) [
        | inl e ↦ (
          [],
          m ∷ rest,
          refl,
          fill_stop c m rest taken last encoded new e
              ∙ ap (λ t. stop_at epoch t last) (sym (append-nil taken)),
        )
        | inr e ↦ (
          m ∷ got,
          left,
          ap (λ t. m ∷ t) same,
          fill_take c m rest taken last encoded new e
              ∙ filled
              ∙ ap (λ t. outcome epoch t (last_or (some m) got) left)
                  (append_assoc taken (m ∷ []) got),
        )
      ]

  fill_splits :
      (c : Option Cursor) (suf taken : List Message) (last : Option Message) (encoded : ℕ)
      → all (λ y. not (is_past c y)) suf ≡ true
      → (got : List Message) × (left : List Message) × (suf ≡ got ++ left)
        × (fill sizes epoch c suf taken last encoded
            ≡ outcome epoch (taken ++ got) (last_or last got) left)
  unfolding fill all outcome last_or
  fill_splits c [] taken last encoded h =
      ([], [], refl, ap (λ t. page t none) (sym (append-nil taken)))
  fill_splits c (m ∷ rest) taken last encoded h =
      let new : is_past c m ≡ false = ground arith in
      let others : all (λ y. not (is_past c y)) rest ≡ true = ground arith in
      split_on c m rest taken last encoded new
        (fill_splits c rest (taken ++ m ∷ []) (some m) (encoded + delta sizes last m) others)

  follow_last :
      (fuel : ℕ) (c : Option Cursor) (messages taken : List Message)
      → fill sizes epoch c messages [] none (sizes.empty_page + 1) ≡ page taken none
      → follow (suc fuel) sizes epoch c messages ≡ some taken
  unfolding follow
  follow_last fuel c messages taken e = rw (follow, e) refl

  follow_next :
      (fuel : ℕ) (c : Option Cursor) (next : Cursor) (messages taken rest : List Message)
      → fill sizes epoch c messages [] none (sizes.empty_page + 1) ≡ page taken (some next)
      → follow fuel sizes epoch (some next) messages ≡ some rest
      → follow (suc fuel) sizes epoch c messages ≡ some (taken ++ rest)
  unfolding follow
  follow_next fuel c next messages taken rest e f = rw (follow, e, f) refl

  -- the last of some messages
  split_last :
      (m : Message) (got : List Message)
      → (init : List Message) × (end : Message) × (m ∷ got ≡ init ++ end ∷ [])
        × (last_or (some m) got ≡ some end)
  unfolding last_or
  split_last m [] = ([], m, refl, refl)
  split_last m (x ∷ got) =
      let (init, end, same, last) = split_last x got in (m ∷ init, end, ap (λ t. m ∷ t) same, last)

  first_room :
      (c : Option Cursor) (m : Message) (rest : List Message)
      → fits_alone sizes epoch m ≡ true
      → is_full c m rest [] none (sizes.empty_page + 1) ≡ false
  unfolding is_full fits_alone delta is_some_message next_size
  first_room c m rest h = ground arith

  -- with enough fuel the reader gets what is past the cursor
  abbrev IsServed : ℕ → List Message → List Message → Option Cursor → Type 0
  IsServed fuel pre suf c =
      is_ordered (pre ++ suf) ≡ true
      → all (is_past c) pre ≡ true
      → all (λ y. not (is_past c y)) suf ≡ true
      → all (fits_alone sizes epoch) suf ≡ true
      → length suf < fuel
      → follow fuel sizes epoch c (pre ++ suf) ≡ some suf

  rejoined :
      (pre init got rest xs : List Message) (m end x : Message)
      → m ∷ got ≡ init ++ end ∷ []
      → rest ≡ got ++ x ∷ xs
      → pre ++ m ∷ rest ≡ ((pre ++ init) ++ end ∷ []) ++ x ∷ xs
  rejoined pre init got rest xs m end x e f =
      ap (λ t. pre ++ m ∷ t) f ∙ ap (λ t. pre ++ (t ++ x ∷ xs)) e ∙ simp (append_assoc)

  serve_on :
      (fuel : ℕ) (pre rest got left : List Message) (m : Message) (c : Option Cursor)
      → ((pre' suf' : List Message) (c' : Option Cursor) → IsServed fuel pre' suf' c')
      → fill sizes epoch c (pre ++ m ∷ rest) [] none (sizes.empty_page + 1)
        ≡ outcome epoch (m ∷ got) (last_or (some m) got) left
      → rest ≡ got ++ left
      → is_ordered (pre ++ m ∷ rest) ≡ true
      → all (fits_alone sizes epoch) (m ∷ rest) ≡ true
      → length (m ∷ rest) < suc fuel
      → follow (suc fuel) sizes epoch c (pre ++ m ∷ rest) ≡ some (m ∷ rest)
  unfolding outcome stop_at all
  serve_on fuel pre rest got [] m c ih filled same o f l =
      follow_last fuel c (pre ++ m ∷ rest) (m ∷ got) filled
      ∙ ap (λ t. some (m ∷ t)) (sym (same ∙ append-nil got))
  serve_on fuel pre rest got (x ∷ xs) m c ih filled same o f l =
      let (init, end, ended, last) = split_last m got in
      let whole = rejoined pre init got rest xs m end x ended same in
      let ordered : is_ordered ((pre ++ init) ++ end ∷ x ∷ xs) ≡ true =
        subst (λ t. is_ordered t ≡ true) (whole ∙ append_assoc (pre ++ init) (end ∷ []) (x ∷ xs))
          o in
      let room : all (fits_alone sizes epoch) (x ∷ xs) ≡ true = ground (
        arith,
        all-append (fits_alone sizes epoch) got (x ∷ xs),
        ap (all (fits_alone sizes epoch)) same,
      ) in
      let fewer : length (x ∷ xs) < fuel =
        omega (arith, ap length same, length-append got (x ∷ xs)) in
      let past = split_past epoch (pre ++ init) end (x ∷ xs) ordered in
      let served : follow fuel sizes epoch (some (cursor_of epoch end)) (pre ++ m ∷ rest)
          ≡ some (x ∷ xs) =
        rw whole (
          ih ((pre ++ init) ++ end ∷ []) (x ∷ xs) (some (cursor_of epoch end))
            (subst (λ t. is_ordered t ≡ true) whole o) past.0 past.1 room fewer) in
      follow_next fuel c (cursor_of epoch end) (pre ++ m ∷ rest) (m ∷ got) (x ∷ xs)
        (filled ∙ ap (λ t. stop_at epoch (m ∷ got) t) last) served
      ∙ ap (λ t. some (m ∷ t)) (sym same)

  follow_rest : (fuel : ℕ) (pre suf : List Message) (c : Option Cursor) → IsServed fuel pre suf c
  unfolding fill all
  follow_rest zero pre suf c o p n f l = absurd (omega arith)
  follow_rest (suc fuel) pre [] c o p n f l =
      follow_last fuel c (pre ++ []) [] (fill_skips c pre [] [] none (sizes.empty_page + 1) p)
  follow_rest (suc fuel) pre (m ∷ rest) c o p n f l =
      let bytes = sizes.empty_page + 1 + delta sizes none m in
      let (got, left, same, filled) = fill_splits c rest (m ∷ []) (some m) bytes (ground arith) in
      serve_on fuel pre rest got left m c (λ pre' suf' c'. follow_rest fuel pre' suf' c')
        (fill_skips c pre (m ∷ rest) [] none (sizes.empty_page + 1) p
          ∙ fill_take c m rest [] none (sizes.empty_page + 1) (ground arith)
              (first_room c m rest (ground arith))
          ∙ filled)
        same o f l

  -- A reader that starts with no cursor and follows the cursors of the pages, with one page of fuel
  -- more than there are messages, ends with all the messages of the moment, each once and in order:
  -- they are ordered by chat and sequence, and each leaves room in a page of its own.
  pub follow_everything :
      (messages : List Message) (fuel : ℕ)
      → is_ordered messages ≡ true
      → all (fits_alone sizes epoch) messages ≡ true
      → length messages < fuel
      → follow fuel sizes epoch none messages ≡ some messages
  follow_everything messages fuel o f l =
      follow_rest fuel [] messages none o none_skipped (none_past messages) f l
