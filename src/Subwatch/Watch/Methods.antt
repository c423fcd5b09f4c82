-- ===== src/Subwatch/Watch/Methods.antt =====
-- Methods that mutate an object: each gives its result and the new state, with a rule for what a
-- method keeps for each way to build one.
use vpn_director.Prelude.{Bool, true, false, Option, none, some, if◌then◌else◌}

abbrev pub Method {ℓ} : Type ℓ → Type ℓ → Type ℓ
Method S A = S → A × S

module _ {ℓ} {S A : Type ℓ} where
  unfoldable pub pure : A → Method S A
  pure a s = (a, s)

  unfoldable pub gets : (S → A) → Method S A
  gets f s = (f s, s)

module _ {ℓ} {S : Type ℓ} where
  unfoldable pub modify : (S → S) → Method S (Unit {ℓ})
  modify f s = (tt, f s)

module _ {ℓ} {S A B : Type ℓ} where
  infixl 10 ◌>>=◌ ◌>>◌
  unfoldable pub ◌>>=◌ : Method S A → (A → Method S B) → Method S B
  ◌>>=◌ m f s = let (a, s') = m s in f a s'

  abbrev pub ◌>>◌ : Method S A → Method S B → Method S B
  m >> n = m >>= λ _. n

unfoldable pub match_option {ℓ κ} : {A : Type ℓ} {B : Type κ} → Option A → B → (A → B) → B
match_option none b f = b
match_option (some a) b f = f a

-- a property of the state that holds before the method holds behind it
pub record Preserves {ℓ} {S A : Type ℓ} (Inv : S → Type ℓ) (act : Method S A) : Type ℓ where
  pub kept : (before : S) → Inv before → Inv (act before).1

module _ {ℓ} {S A B : Type ℓ} {Inv : S → Type ℓ} where
  pub Preserves-bind :
      (act : Method S A) (next : A → Method S B)
      → Preserves Inv act
      → ((result : A) → Preserves Inv (next result))
      → Preserves Inv (act >>= next)
  unfolding ◌>>=◌
  Preserves-bind act next this those = record {
    kept = λ before holds. (those (act before).0).kept (act before).1 (this.kept before holds);
  }

  pub Preserves-option :
      (answer : Option A) (act : Method S B) (next : A → Method S B)
      → Preserves Inv act
      → ((result : A) → Preserves Inv (next result))
      → Preserves Inv (match_option answer act next)
  unfolding match_option
  Preserves-option (some result) act next this those = those result
  Preserves-option none act next this those = this

module _ {ℓ} {S A : Type ℓ} {Inv : S → Type ℓ} where
  pub Preserves-if :
      (test : Bool) (first second : Method S A)
      → Preserves Inv first
      → Preserves Inv second
      → Preserves Inv (if test then first else second)
  Preserves-if false first second this that = that
  Preserves-if true first second this that = this

  pub Preserves-gets : (read : S → A) → Preserves Inv (gets read)
  unfolding gets
  Preserves-gets read = record { kept = λ before holds. holds }

  pub Preserves-pure : (result : A) → Preserves Inv (pure result)
  unfolding pure
  Preserves-pure result = record { kept = λ before holds. holds }

pub ruleset preserves_rules =
    (Preserves-pure, Preserves-gets, Preserves-if, Preserves-bind, Preserves-option)
