-- ===== src/Client/Request/Quiet.antt =====
-- Actions that leave a key of the database alone and notify few states, and how they compose.
use locaccel.Prelude.{
  ℕ, ◌+◌, ◌≤◌, String, List, [], ◌∷◌, ◌++◌, Bool, true, false, length, length-append, if◌then◌else◌,
  arith, All, All-append, ◌||◌, ◌==◌, ◌≡◌, refl, sym, ap, ◌∙◌, append_assoc, append-nil,
}
use locaccel.Prelude.Panic.{Run, returns, panics}
use locaccel.Client.{Env, World, Action, ◌>>=◌, pure, gets, notify, lift}

-- The states that the middleware knows.
unfoldable pub is_known : String → Bool
is_known status = status == "hit" || status == "miss" || status == "revalidated"

abbrev pub AreKnown : List String → Type 0
AreKnown = All (λ status. is_known status ≡ true)

module _ (env : Env) (other : String) where
  -- The key reads as before, and at most `n` states were notified, which are known ones.
  abbrev pub IsQuiet : ℕ → World env.badger.Db → World env.badger.Db → Type 0
  IsQuiet n w w' =
      (statuses : List String) × (w'.notified ≡ w.notified ++ statuses)
      × (length statuses ≤ n)
      × (env.badger.txn_get w'.db other ≡ env.badger.txn_get w.db other)
      × AreKnown statuses

  module _ {A : Type 0} where
    abbrev pub Does : ℕ → Action env.badger.Db A → Type 0
    Does n m = (w : World env.badger.Db) → IsQuiet n w (m w).1

    pub pure-Does : (n : ℕ) (a : A) → Does n (pure a)
    pure-Does n a w = ([], sym (append-nil w.notified), omega arith, refl, tt)

    pub lift-Does : (r : Run A) → Does 0 (lift r)
    lift-Does r w = ([], sym (append-nil w.notified), omega arith, refl, tt)

    pub gets-Does : (f : World env.badger.Db → A) → Does 0 (gets f)
    gets-Does f w = ([], sym (append-nil w.notified), omega arith, refl, tt)

    pub Does-le : (n k : ℕ) (m : Action env.badger.Db A) → n ≤ k → Does n m → Does k m
    Does-le n k m h d w =
        let (statuses, e, le, at, known) = d w in (statuses, e, omega (arith, h, le), at, known)

    pub Does-if :
        (n : ℕ) (b : Bool) (m k : Action env.badger.Db A)
        → Does n m
        → Does n k
        → Does n (if b then m else k)
    Does-if n true m k d d' = d
    Does-if n false m k d d' = d'

  pub notify-Does : (status : String) → is_known status ≡ true → Does 1 (notify status)
  notify-Does status known w = (status ∷ [], refl, omega arith, refl, (known, tt))

  module _ {A B : Type 0} where
    continue-Does :
        (a b : ℕ) (r : Run A) (f : A → Action env.badger.Db B) (w w' : World env.badger.Db)
        → IsQuiet a w w'
        → ((x : A) → Does b (f x))
        → IsQuiet (a + b) w (((λ v. (r, v)) >>= f) w').1
    continue-Does a b panics f w w' (l, e, le, at, known) d = (l, e, omega (arith, le), at, known)
    continue-Does a b (returns x) f w w' (l, e, le, at, known) d =
        let (l', e', le', at', known') = d x w' in
        (
          l ++ l',
          e' ∙ ap (λ n. n ++ l') e ∙ append_assoc w.notified l l',
          omega (arith, length-append l l', le, le'),
          at' ∙ at,
          All-append _ l l' known known',
        )

    pub bind-Does :
        (a b : ℕ) (m : Action env.badger.Db A) (f : A → Action env.badger.Db B)
        → Does a m
        → ((x : A) → Does b (f x))
        → Does (a + b) (m >>= f)
    bind-Does a b m f d d' w = continue-Does a b (m w).0 f w (m w).1 (d w) d'
