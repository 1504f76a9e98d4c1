-- ===== src/Cluster/Preserves.antt =====
-- Properties of the world that an action keeps, however it ends.
use mintmaker.Base.{ℕ, Result, ok, err, Error, ◌≡◌, refl, subst, ok-injective}
use mintmaker.Cluster.Client.{
  World, Action, History, Effect, ◌>>=◌, pure, raise, lift, attempt, perform, asking, note,
}

pub record Preserves {ℓ} (P : World → Type 0) {A : Type ℓ} (m : Action A) : Type 0 where
  pub keep : (w : World) → P w → P (m w).1

-- Neither a read of the cluster nor a random draw changes it.
pub record IsStable (P : World → Type 0) : Type 0 where
  pub reads : (w : World) → P w → P (note Effect.read w)
  pub draws : (w : World) (n : ℕ) → P w → P (record w { draws = n })

module _ {P : World → Type 0} where
  bind_from {ℓ κ} :
      {A : Type ℓ} {B : Type κ} (f : A → Action B) (r : Result A) (w : World)
      → ((a : A) → Preserves P (f a))
      → P w
      → P (elim r as (λ _. Result B × World) [ ok a ↦ f a w | err e ↦ (err e, w) ]).1
  bind_from f (ok a) w k h = (k a).keep w h
  bind_from f (err e) w k h = h

  pub >>=-Preserves {ℓ κ} :
      {A : Type ℓ} {B : Type κ} {m : Action A} {f : A → Action B}
      → Preserves P m
      → ((a : A) → Preserves P (f a))
      → Preserves P (m >>= f)
  unfolding ◌>>=◌
  >>=-Preserves {m = m} {f = f} hm hf = record {
    keep = λ w h. bind_from f (m w).0 (m w).1 hf (hm.keep w h);
  }

  pub pure-Preserves {ℓ} : {A : Type ℓ} (a : A) → Preserves P (pure a)
  unfolding pure
  pure-Preserves a = record { keep = λ w h. h }

  pub raise-Preserves {ℓ} : {A : Type ℓ} (e : Error) → Preserves P (raise {A = A} e)
  unfolding raise
  raise-Preserves e = record { keep = λ w h. h }

  pub lift-Preserves {ℓ} : {A : Type ℓ} (r : Result A) → Preserves P (lift r)
  unfolding lift
  lift-Preserves r = record { keep = λ w h. h }

  pub attempt-Preserves {ℓ} : {A : Type ℓ} {m : Action A} → Preserves P m → Preserves P (attempt m)
  unfolding attempt
  attempt-Preserves hm = record { keep = λ w h. hm.keep w h }

  pub asking-Preserves {ℓ} :
      {A : Type ℓ} (call : History → Result A) → IsStable P → Preserves P (asking call)
  unfolding perform
  asking-Preserves call stable = record { keep = λ w h. stable.reads w h }

-- What an action returns when it succeeds.
pub record Yields {ℓ} {A : Type ℓ} (R : A → Type 0) (m : Action A) : Type ℓ where
  pub value : (w : World) (a : A) → (m w).0 ≡ ok a → R a

value_from {ℓ κ} :
    {A : Type ℓ} {B : Type κ} (R : A → Type 0) (S : B → Type 0) (f : A → Action B) (r : Result A)
    (w : World)
    → ((a : A) → r ≡ ok a → R a)
    → ((a : A) → R a → Yields S (f a))
    → (b : B) → (elim r as (λ _. Result B × World) [ ok a ↦ f a w | err e ↦ (err e, w) ]).0 ≡ ok b
    → S b
value_from R S f (ok a) w hr hf b e = (hf a (hr a refl)).value w b e
value_from R S f (err x) w hr hf b e = cc

pub >>=-Yields {ℓ κ} :
    {A : Type ℓ} {B : Type κ} {R : A → Type 0} {S : B → Type 0} {m : Action A} {f : A → Action B}
    → Yields R m
    → ((a : A) → R a → Yields S (f a))
    → Yields S (m >>= f)
unfolding ◌>>=◌
>>=-Yields {R = R} {S = S} {m = m} {f = f} hm hf = record {
  value = λ w b e. value_from R S f (m w).0 (m w).1 (hm.value w) hf b e;
}

pub pure-Yields {ℓ} : {A : Type ℓ} {R : A → Type 0} (a : A) → R a → Yields R (pure a)
unfolding pure
pure-Yields {R = R} a h = record { value = λ w b e. subst R (ok-injective e) h }

pub lift-Yields {ℓ} :
    {A : Type ℓ} {R : A → Type 0} (r : Result A) → ((a : A) → r ≡ ok a → R a) → Yields R (lift r)
unfolding lift
lift-Yields r h = record { value = λ w b e. h b e }

pub any-Yields {ℓ} : {A : Type ℓ} (m : Action A) → Yields (λ _. Unit) m
any-Yields m = record { value = λ w a e. tt }

-- From one property of the world to another, however the action ends.
pub record Leads {ℓ} (P Q : World → Type 0) {A : Type ℓ} (m : Action A) : Type 0 where
  pub lead : (w : World) → P w → Q (m w).1

module _ {P Q : World → Type 0} where
  pub then-Leads {ℓ κ} :
      {A : Type ℓ} {B : Type κ} {m : Action A} {f : A → Action B}
      → Leads P Q m
      → ((a : A) → Preserves Q (f a))
      → Leads P Q (m >>= f)
  unfolding ◌>>=◌
  then-Leads {m = m} {f = f} hm hf = record {
    lead = λ w h. bind_from f (m w).0 (m w).1 hf (hm.lead w h);
  }

  lead_from {ℓ κ} :
      {A : Type ℓ} {B : Type κ} (R : A → Type 0) (f : A → Action B) (r : Result A) (w : World)
      → ((v : World) → P v → Q v)
      → ((a : A) → r ≡ ok a → R a)
      → ((a : A) → R a → Leads P Q (f a))
      → P w
      → Q (elim r as (λ _. Result B × World) [ ok a ↦ f a w | err e ↦ (err e, w) ]).1
  lead_from R f (ok a) w weaken hr hf h = (hf a (hr a refl)).lead w h
  lead_from R f (err e) w weaken hr hf h = weaken w h

  pub after-Leads {ℓ κ} :
      {A : Type ℓ} {B : Type κ} {R : A → Type 0} {m : Action A} {f : A → Action B}
      → ((v : World) → P v → Q v)
      → Preserves P m
      → Yields R m
      → ((a : A) → R a → Leads P Q (f a))
      → Leads P Q (m >>= f)
  unfolding ◌>>=◌
  after-Leads {R = R} {m = m} {f = f} weaken hm hr hf = record {
    lead = λ w h. lead_from R f (m w).0 (m w).1 weaken (hr.value w) hf (hm.keep w h);
  }

-- The end of an action that returns no error.
abbrev pub Ends {ℓ} : {A : Type ℓ} → (A → World → Type 0) → Result A × World → Type 0
Ends Q (ok a, w) = Q a w
Ends Q (err e, w) = ⊥

pub record Totals {ℓ} {A : Type ℓ} (P : World → Type 0) (Q : A → World → Type 0) (m : Action A)
    : Type 0 where
  pub ends : (w : World) → P w → Ends Q (m w)

Ends-from {ℓ κ} :
    {A : Type ℓ} {B : Type κ} (Q : A → World → Type 0) (S : B → World → Type 0) (f : A → Action B)
    (r : Result A) (w : World)
    → ((a : A) → Totals (Q a) S (f a))
    → Ends Q (r, w)
    → Ends S (elim r as (λ _. Result B × World) [ ok a ↦ f a w | err e ↦ (err e, w) ])
Ends-from Q S f (ok a) w hf h = (hf a).ends w h
Ends-from Q S f (err e) w hf h = absurd h

pub >>=-Totals {ℓ κ} :
    {A : Type ℓ} {B : Type κ} {P : World → Type 0} {Q : A → World → Type 0} {S : B → World → Type 0}
    {m : Action A} {f : A → Action B}
    → Totals P Q m
    → ((a : A) → Totals (Q a) S (f a))
    → Totals P S (m >>= f)
unfolding ◌>>=◌
>>=-Totals {Q = Q} {S = S} {m = m} {f = f} hm hf = record {
  ends = λ w h. Ends-from Q S f (m w).0 (m w).1 hf (hm.ends w h);
}

pub pure-Totals {ℓ} :
    {A : Type ℓ} {P : World → Type 0} {Q : A → World → Type 0} (a : A)
    → ((w : World) → P w → Q a w)
    → Totals P Q (pure a)
unfolding pure
pure-Totals a h = record { ends = h }

pub attempt-Totals {ℓ} :
    {A : Type ℓ} {P Q : World → Type 0} {m : Action A} → Leads P Q m → Totals P (λ _. Q) (attempt m)
unfolding attempt
attempt-Totals hm = record { ends = λ w h. hm.lead w h }

pub Preserves-Leads {ℓ} :
    {A : Type ℓ} {P : World → Type 0} {m : Action A} → Preserves P m → Leads P P m
Preserves-Leads hm = record { lead = hm.keep }

pub Ends-map {ℓ} :
    {A : Type ℓ} (Q S : A → World → Type 0) (r : Result A) (w : World)
    → ((a : A) → Q a w → S a w)
    → Ends Q (r, w)
    → Ends S (r, w)
Ends-map Q S (ok a) w f h = f a h
Ends-map Q S (err e) w f h = absurd h
