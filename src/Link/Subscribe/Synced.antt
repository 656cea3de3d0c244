-- ===== src/Link/Subscribe/Synced.antt =====
-- The registry, the desired state and the box's table over the subscription calls of
-- src/link/catch.rs.
use medius.Base.{ℕ, zero, suc, ◌+◌, ◌%◌, ◌^◌, ◌≤◌, ◌<◌, ◌≡◌, ◌⊎◌, inl, inr, refl, ap, ◌∙◌, arith}
use medius.Base.{
  List, [], ◌∷◌, ◌++◌, All, length, retain, negate, ◌==◌, Bool, true, false, Bool-cases,
}
use medius.Base.{ltb, ok, err, All-append}
use medius.Base.Map.{IsSorted}
use medius.Types.Catch.{filter_key_order}
use medius.Link.Reconcile.State.{FilterSet, DesiredState}
use medius.Link.Reconcile.Session.{set_catch}
use medius.Link.Catch.{CatchFrame, catch_sync}
use medius.Link.Catch.Box.{box_apply_all, box_apply, box_apply-IsSorted}
use medius.Link.Catch.Union.{box_apply_all-effective}
use medius.Link.Catch.Partial.{IsBetween, Toward, box_apply-IsBetween}
use medius.Link.Subscribe.{
  CatchLink, CatchSub, SubscribeError, catch_max_entries, filter_sets, new_sub, reg_effective,
  send_frames, catch_subscribe,
}

-- The box and the desired state hold the union of the registry, and every identifier was given out.
pub record IsSynced (l : CatchLink) : Type 0 where
  pub table : l.table ≡ reg_effective l.subs
  pub desired : l.desired.catch ≡ reg_effective l.subs
  pub given : All (λ s. s.id < l.catch_gen) l.subs

pub send_frames_all :
    (sends : ℕ) (cs : List CatchFrame) (table : FilterSet)
    → length cs ≤ sends
    → send_frames sends cs table ≡ (box_apply_all cs table, true)
unfolding send_frames box_apply_all
send_frames_all sends [] table h = send_frames_nil sends
  where
    send_frames_nil : (n : ℕ) → send_frames n [] table ≡ (table, true)
    send_frames_nil zero = refl
    send_frames_nil (suc n) = refl
send_frames_all zero (c ∷ cs) table h = absurd (omega arith)
send_frames_all (suc sends) (c ∷ cs) table h =
    send_frames_all sends cs (box_apply c table) (omega arith)

pub send_frames_some :
    (sends : ℕ) (cs : List CatchFrame) (table : FilterSet)
    → sends < length cs
    → (send_frames sends cs table).1 ≡ false
unfolding send_frames
send_frames_some sends [] table h = absurd (omega arith)
send_frames_some zero (c ∷ cs) table h = refl
send_frames_some (suc sends) (c ∷ cs) table h =
    send_frames_some sends cs (box_apply c table) (omega arith)

pub send_frames-IsBetween :
    (sends : ℕ) (cs : List CatchFrame) (a b t : FilterSet)
    → All (Toward b) cs
    → IsBetween a b t
    → IsSorted t
    → IsBetween a b (send_frames sends cs t).0 × IsSorted (send_frames sends cs t).0
unfolding send_frames
send_frames-IsBetween zero [] a b t h between s = (between, s)
send_frames-IsBetween (suc sends) [] a b t h between s = (between, s)
send_frames-IsBetween zero (c ∷ cs) a b t h between s = (between, s)
send_frames-IsBetween (suc sends) (c ∷ cs) a b t h between s =
    send_frames-IsBetween sends cs a b (box_apply c t) h.1 (box_apply-IsBetween c a b t h.0 between)
      (box_apply-IsSorted c t s)

retain_given :
    (g : ℕ) (subs : List CatchSub)
    → All (λ s. s.id < g) subs
    → retain (λ s. negate (s.id == g)) subs ≡ subs
retain_given g [] h = refl
retain_given g (s ∷ subs) h = ground (arith, retain_given g subs h.1, h.0)

pub retain_new :
    (g : ℕ) (filters : FilterSet) (subs : List CatchSub)
    → All (λ s. s.id < g) subs
    → retain (λ s. negate (s.id == g)) (subs ++ (new_sub g filters ∷ [])) ≡ subs
retain_new g filters [] h = ground arith
retain_new g filters (s ∷ subs) h = ground (arith, retain_new g filters subs h.1, h.0)

pub All-retain :
    (g : ℕ) (p : CatchSub → Bool) (subs : List CatchSub)
    → All (λ s. s.id < g) subs
    → All (λ s. s.id < g) (retain p subs)
All-retain g p [] h = tt
All-retain g p (s ∷ subs) h = ground (arith, All-retain g p subs h.1, h.0)

pub All-later :
    (g : ℕ) (subs : List CatchSub) → All (λ s. s.id < g) subs → All (λ s. s.id < g + 1) subs
All-later g [] h = tt
All-later g (s ∷ subs) h = (omega arith, All-later g subs h.1)

-- A union is led to the next by the frames between the two.
pub sync_effective :
    (before after : List CatchSub)
    → box_apply_all (catch_sync (reg_effective before) (reg_effective after)) (reg_effective before)
      ≡ reg_effective after
unfolding reg_effective
sync_effective before after = box_apply_all-effective (filter_sets before) (filter_sets after)

pub set_catch_lem : (set : FilterSet) (d : DesiredState) → (set_catch set d).catch ≡ set
unfolding set_catch
set_catch_lem set d = refl

-- The registry with a new subscriber.
abbrev pub subs_after : CatchLink → FilterSet → List CatchSub
subs_after l filters = l.subs ++ (new_sub l.catch_gen filters ∷ [])

module _ (l : CatchLink) (filters : FilterSet) (synced : IsSynced l)
    (room : l.catch_gen + 1 < 2 ^ 64) where
  pub gen_fits : (l.catch_gen + 1) % 2 ^ 64 ≡ l.catch_gen + 1
  gen_fits = omega arith

  pub refused-IsSynced : IsSynced (record l {
    catch_gen = (l.catch_gen + 1) % 2 ^ 64;
    subs = retain (λ s. negate (s.id == l.catch_gen)) (subs_after l filters);
  })
  refused-IsSynced =
      rw (retain_new l.catch_gen filters l.subs synced.given, gen_fits)
        (record {
          table = synced.table;
          desired = synced.desired;
          given = All-later l.catch_gen l.subs synced.given;
        })

  accepted-IsSynced :
      (table : FilterSet)
      → table ≡ reg_effective (subs_after l filters)
      → IsSynced (record l {
        catch_gen = (l.catch_gen + 1) % 2 ^ 64;
        subs = subs_after l filters;
        desired = set_catch (reg_effective (subs_after l filters)) l.desired;
        table = table;
      })
  accepted-IsSynced table e = rw gen_fits (record {
    table = e;
    desired = set_catch_lem (reg_effective (subs_after l filters)) l.desired;
    given =
        All-append (λ s. s.id < l.catch_gen + 1) l.subs (new_sub l.catch_gen filters ∷ [])
          (All-later l.catch_gen l.subs synced.given) (omega arith, tt);
  })

  -- On a link whose box and desired state hold the union of the registry, with fewer than 2^64 - 1
  -- identifiers given out, a subscription of which every send succeeds keeps both at the union: it
  -- is registered under the next identifier when the new union has at most 32 entries, and
  -- otherwise it is refused with the registry and the box's table unchanged.
  pub catch_subscribe-IsSynced :
      (sends undo_sends : ℕ)
      → length (catch_sync (reg_effective l.subs) (reg_effective (subs_after l filters))) ≤ sends
      → let (l', result) = catch_subscribe sends undo_sends filters l in
        IsSynced l'
        × (((result ≡ ok l.catch_gen)
              × (l'.subs ≡ subs_after l filters)
              × (length (reg_effective (subs_after l filters)) ≤ catch_max_entries))
            ⊎ ((result
                  ≡ err (
                      SubscribeError.catch_table_full
                        (length (reg_effective (subs_after l filters)))
                        catch_max_entries))
                × (l'.subs ≡ l.subs)
                × (l'.table ≡ l.table)
                × (catch_max_entries < length (reg_effective (subs_after l filters)))))
  unfolding catch_subscribe
  catch_subscribe-IsSynced sends undo_sends enough =
      let next = reg_effective (subs_after l filters) in
      elim (Bool-cases (ltb catch_max_entries (length next))) [
        | inl full ↦ rw full (
          refused-IsSynced,
          inr (
            refl,
            retain_new l.catch_gen filters l.subs synced.given,
            refl,
            ground (arith, full),
          ),
        )
        | inr fits ↦
            let cs = catch_sync (reg_effective l.subs) next in
            let sent = send_frames_all sends cs l.table enough in
            let e : box_apply_all cs l.table ≡ next =
              ap (box_apply_all cs) synced.table ∙ sync_effective l.subs (subs_after l filters) in
            rw (fits, sent)
              (
                accepted-IsSynced (box_apply_all cs l.table) e,
                inl (refl, refl, ground (arith, fits)),
              )
      ]
