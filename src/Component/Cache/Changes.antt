-- ===== src/Component/Cache/Changes.antt =====
-- internal/component/github/cache.go: the ways in which a step changes the mutex, the flag and the
-- channels, and the invariant.
use mintmaker.Base.{
  ℕ, ◌<◌, true, false, Option, none, some, ◌≡◌, ◌≢◌, refl, sym, ap, ◌∙◌, subst, ◌⊎◌, inl, inr,
  arith,
}
use mintmaker.Component.Cache.{update, Sync, Pc, unlock, begin, finish}
use mintmaker.Component.Cache.Invariant.{
  update_same, update_other, all_update, none-some, true-false, some-injective, holding, deciding,
  leads, waits, LockAt, HeldAt, QuietAt, WaitAt, LeadAt, Inv, deciding-holding, FewBusy-update,
}

module _ {V : Type 0} where
  module _ (y : Sync) (pc : ℕ → Pc V) (inv : Inv y pc) (i : ℕ) (p : Pc V) where
    open inv use {leader}

    led_on :
        leads p ≡ leads (pc i)
        → y.in_progress ≡ true
        → leads (update pc i p leader) ≡ some y.refresh_done
    led_on same h =
        all_update pc i p
          (λ j q. leads (pc j) ≡ some y.refresh_done → leads q ≡ some y.refresh_done)
          (λ k. same ∙ k) (λ j _ k. k) leader (inv.led h)

    -- A step that leaves the mutex, the flag and the channels alone.
    pub keep-Inv :
        holding p ≡ holding (pc i)
        → leads p ≡ leads (pc i)
        → waits p ≡ none
        → QuietAt y i p
        → Inv y (update pc i p)
    keep-Inv same_lock same_lead no_wait decides = record {
      leader = leader;
      lock = all_update pc i p (LockAt y) (λ h. inv.lock i (sym same_lock ∙ h)) (λ j _. inv.lock j);
      held = all_update pc i p (HeldAt y) (λ h. same_lock ∙ inv.held i h) (λ j _. inv.held j);
      quiet = all_update pc i p (QuietAt y) decides (λ j _. inv.quiet j);
      lead =
          all_update pc i p (LeadAt y leader) (λ c h. inv.lead i c (sym same_lead ∙ h))
            (λ j _. inv.lead j);
      led = led_on same_lead;
      opened = inv.opened;
      made = inv.made;
      wait =
          all_update pc i p (WaitAt y) (λ c h. absurd (none-some (sym no_wait ∙ h)))
            (λ j _. inv.wait j);
      unmade = inv.unmade;
      few = FewBusy-update pc i p inv.few;
    }

    -- A step that takes the free mutex.
    pub acquire-Inv :
        y.owner ≡ none
        → holding p ≡ true
        → deciding p ≡ false
        → leads p ≡ leads (pc i)
        → waits p ≡ none
        → Inv (record y { owner = some i }) (update pc i p)
    acquire-Inv free locks undecided same_lead no_wait =
        let y' = record y { owner = some i } in
        record {
          leader = leader;
          lock =
              all_update pc i p (LockAt y') (λ h. refl)
                (λ j _ h. absurd (none-some (sym free ∙ inv.lock j h)));
          held =
              all_update pc i p (HeldAt y') (λ h. locks)
                (λ j other h. absurd (other (some-injective h)));
          quiet =
              all_update pc i p (QuietAt y') (λ h. absurd (true-false (sym h ∙ undecided)))
                (λ j _. inv.quiet j);
          lead =
              all_update pc i p (LeadAt y' leader) (λ c h. inv.lead i c (sym same_lead ∙ h))
                (λ j _. inv.lead j);
          led = led_on same_lead;
          opened = inv.opened;
          made = inv.made;
          wait =
              all_update pc i p (WaitAt y') (λ c h. absurd (none-some (sym no_wait ∙ h)))
                (λ j _. inv.wait j);
          unmade = inv.unmade;
          few = FewBusy-update pc i p inv.few;
        }

    module _ (locks : holding (pc i) ≡ true) (unlocks : holding p ≡ false) where
      -- After the step of the holder no other goroutine has the mutex.
      sole_lock : (owner : Option ℕ) (j : ℕ) → i ≢ j → holding (pc j) ≡ true → owner ≡ some j
      sole_lock owner j other h =
          absurd (other (some-injective (sym (inv.lock i locks) ∙ inv.lock j h)))

      lock_released : (j : ℕ) → holding (update pc i p j) ≡ true → none ≡ some j
      lock_released =
          all_update pc i p (λ j q. holding q ≡ true → none ≡ some j)
            (λ h. absurd (true-false (sym h ∙ unlocks))) (sole_lock none)

      -- A step that only gives the mutex back.
      pub release-Inv :
          deciding p ≡ false
          → leads p ≡ leads (pc i)
          → WaitAt y i p
          → Inv (unlock y) (update pc i p)
      release-Inv undecided same_lead waits_well =
          let y' = unlock y in
          record {
            leader = leader;
            lock = lock_released;
            held = λ j h. absurd (none-some h);
            quiet =
                all_update pc i p (QuietAt y') (λ h. absurd (true-false (sym h ∙ undecided)))
                  (λ j _. inv.quiet j);
            lead =
                all_update pc i p (LeadAt y' leader) (λ c h. inv.lead i c (sym same_lead ∙ h))
                  (λ j _. inv.lead j);
            led = led_on same_lead;
            opened = inv.opened;
            made = inv.made;
            wait = all_update pc i p (WaitAt y') waits_well (λ j _. inv.wait j);
            unmade = inv.unmade;
            few = FewBusy-update pc i p inv.few;
          }

      -- The end of a refresh, which closes its channel.
      pub finish-Inv :
          (c : ℕ)
          → leads (pc i) ≡ some c
          → leads p ≡ none
          → waits p ≡ none
          → Inv (finish c y) (update pc i p)
      finish-Inv c leading no_lead no_wait =
          let y' = finish c y in
          let (is_leader, on, done) = inv.lead i c leading in
          let small : c < y.channels = subst (λ n. n < y.channels) done (inv.made on) in
          record {
            leader = leader;
            lock = lock_released;
            held = λ j h. absurd (none-some h);
            quiet = λ j h. refl;
            lead =
                all_update pc i p (LeadAt y' leader) (λ d h. absurd (none-some (sym no_lead ∙ h)))
                  (λ j other d h. absurd (other (is_leader ∙ sym (inv.lead j d h).0)));
            led = λ h. absurd (true-false (sym h));
            opened = λ h. absurd (true-false (sym h));
            made = λ h. absurd (true-false (sym h));
            wait =
                all_update pc i p (WaitAt y') (λ d h. absurd (none-some (sym no_wait ∙ h)))
                  (λ j other d h. inl (closes c y d (inv.wait j d h) done));
            unmade =
                λ d h. update_other y.closed c true d (λ e. absurd (omega arith)) ∙ inv.unmade d h;
            few = FewBusy-update pc i p inv.few;
          }
        where
          closes :
              (c : ℕ) (z : Sync) (d : ℕ)
              → (z.closed d ≡ true) ⊎ ((z.in_progress ≡ true) × (z.refresh_done ≡ d))
              → z.refresh_done ≡ c
              → update z.closed c true d ≡ true
          closes c z d (inl h) e =
              all_update z.closed c true (λ k b. z.closed k ≡ true → b ≡ true) (λ _. refl)
                (λ k _ h'. h') d h
          closes c z d (inr (on, e')) e =
              subst (λ k. update z.closed c true k ≡ true) (sym e ∙ e')
                (update_same z.closed c true)

    -- The start of a refresh while the mutex is free and no refresh goes on.
    pub begin-Inv :
        y.owner ≡ none
        → y.in_progress ≡ false
        → holding p ≡ false
        → deciding p ≡ false
        → leads p ≡ some y.channels
        → waits p ≡ none
        → Inv (begin y) (update pc i p)
    begin-Inv free off unlocked undecided leading no_wait =
        let y' = begin y in
        record {
          leader = i;
          lock =
              all_update pc i p (LockAt y') (λ h. absurd (true-false (sym h ∙ unlocked)))
                (λ j _ h. absurd (none-some (sym free ∙ inv.lock j h)));
          held = λ j h. absurd (none-some h);
          quiet =
              all_update pc i p (QuietAt y') (λ h. absurd (true-false (sym h ∙ undecided)))
                (λ j _ h. absurd (none-some (sym free ∙ inv.lock j (deciding-holding (pc j) h))));
          lead =
              all_update pc i p (LeadAt y' i)
                (λ c h. (refl, refl, some-injective (sym leading ∙ h)))
                (λ j _ c h. absurd (true-false (sym (inv.lead j c h).1 ∙ off)));
          led = λ _. ap leads (update_same pc i p) ∙ leading;
          opened = λ _. inv.unmade y.channels (omega arith);
          made = λ _. omega arith;
          wait =
              all_update pc i p (WaitAt y') (λ c h. absurd (none-some (sym no_wait ∙ h)))
                (λ j _ c h. elim (inv.wait j c h) [
                  | inl k ↦ inl k
                  | inr (on, e) ↦ absurd (true-false (sym on ∙ off))
                ]);
          unmade = λ c h. inv.unmade c (omega arith);
          few = FewBusy-update pc i p inv.few;
        }
