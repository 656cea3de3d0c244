-- ===== src/Link/Subscribe/Lost.antt =====
-- A subscription of src/link/catch.rs that clears the box's table and then fails, and what its undo
-- leaves.
use medius.Base.{ℕ, ◌+◌, ◌≤◌, ◌≡◌, refl, ap, ◌∙◌, arith, ltb}
use medius.Base.{
  List, [], ◌∷◌, ◌++◌, length, Bool, true, false, err, Option, none, some, if◌then◌else◌,
}
use medius.Base.{length-append, append_empty, ◌&&◌, negate, ==_refl}
use medius.Base.Map.{lookup, contains_key, IsSorted}
use medius.Types.Catch.{filter_key_order, CatchFilter, FilterKey, Capture}
use medius.Link.Reconcile.State.{FilterSet}
use medius.Link.Reconcile.Session.{set_catch}
use medius.Link.Catch.{
  CatchFrame, catch_sync, removes_wildcard, removals, additions, already_held, capture_eq,
}
use medius.Link.Catch.Box.{
  box_apply_all, box_apply, box_apply_all-append, lookup-removals, lookup-additions, IsKeyed,
}
use medius.Link.Subscribe.{
  CatchLink, SubscribeError, catch_max_entries, reg_effective, send_frames, detach_sub, roll_back,
  catch_subscribe,
}
use medius.Link.Subscribe.Synced.{IsSynced, send_frames_all, retain_new, set_catch_lem, subs_after}
use medius.Link.Subscribe.Undo.{reg_effective-IsTable}

-- The frames before one that fails.
send_frames_split :
    (cs : List CatchFrame) (d : CatchFrame) (ds : List CatchFrame) (t : FilterSet)
    → send_frames (length cs) (cs ++ (d ∷ ds)) t ≡ (box_apply_all cs t, false)
unfolding send_frames box_apply_all
send_frames_split [] d ds t = refl
send_frames_split (c ∷ cs) d ds t = send_frames_split cs d ds (box_apply c t)

additions_head :
    (prev next : FilterSet) (k : FilterKey) (f : CatchFilter)
    → lookup k next ≡ some f
    → (d : CatchFrame) × (ds : List CatchFrame) × (additions true prev next ≡ d ∷ ds)
unfolding additions lookup
additions_head prev [] k f h = absurd (cc)
additions_head prev ((j, g) ∷ next) k f h = (CatchFrame.add g, additions true prev next, refl)

cleared :
    (cs : List CatchFrame) (t : FilterSet)
    → box_apply_all (cs ++ (CatchFrame.clear_table ∷ [])) t ≡ []
cleared cs t =
    box_apply_all-append cs (CatchFrame.clear_table ∷ []) t ∙ the_clear (box_apply_all cs t)
  where
    the_clear : (u : FilterSet) → box_apply_all (CatchFrame.clear_table ∷ []) u ≡ []
    the_clear u = unfold box_apply_all box_apply in refl

capture_eq_refl : (c : Capture) → capture_eq c c ≡ true
unfolding capture_eq
capture_eq_refl Capture.whole = refl
capture_eq_refl (Capture.first n) = ==_refl n

if_none : (b : Bool) (o : Option CatchFilter) → o ≡ none → (if b then none else o) ≡ none
if_none true o e = refl
if_none false o e = e

lookup_nil : (k : FilterKey) → lookup {V = CatchFilter} k [] ≡ none
unfolding lookup
lookup_nil k = refl

-- An entry that the diff takes for held is not sent to a box that has lost it.
lookup-lost :
    (prev next : FilterSet) (k : FilterKey) (f : CatchFilter)
    → removes_wildcard prev next ≡ false
    → IsSorted next
    → IsKeyed prev
    → IsKeyed next
    → lookup k prev ≡ some f
    → lookup k next ≡ some f
    → lookup k (box_apply_all (catch_sync prev next) []) ≡ none
unfolding catch_sync
lookup-lost prev next k f w s kp kn p n =
    let table : FilterSet = box_apply_all (removals false prev next) [] in
    let gone : lookup k table ≡ none =
      lookup-removals prev next [] k w kp
      ∙ if_none (contains_key k prev && negate (contains_key k next)) (lookup k [])
          (lookup_nil k) in
    let held : already_held false prev k f ≡ true = rw p (capture_eq_refl f.capture) in
    rw
      (
        w,
        append_empty (removals false prev next),
        box_apply_all-append (removals false prev next) (additions false prev next) [],
        lookup-additions false prev next table k s kn,
        n,
        held,
      )
      gone

cut_after_clear :
    (prev next t : FilterSet) (k : FilterKey) (f : CatchFilter)
    → removes_wildcard prev next ≡ true
    → lookup k next ≡ some f
    → send_frames (length (removals true prev next) + 1) (catch_sync prev next) t ≡ ([], false)
unfolding catch_sync
cut_after_clear prev next t k f w n =
    let front = removals true prev next ++ (CatchFrame.clear_table ∷ []) in
    let (d, ds, e) = additions_head prev next k f n in
    let size : length (removals true prev next) + 1 ≡ length front =
      omega (arith, length-append (removals true prev next) (CatchFrame.clear_table ∷ [])) in
    rw (w, e, size)
      (send_frames_split front d ds t ∙ ap (λ u. (u, false)) (cleared (removals true prev next) t))

module _ (l : CatchLink) (filters : FilterSet) (synced : IsSynced l) (k : FilterKey)
    (f : CatchFilter) where
  -- When a subscription that fits the table removes a wildcard entry, its undo removes none, the
  -- send right after the clear fails and every send of the undo succeeds, an entry with the same
  -- capture in both unions is missing from the box although the desired state lists it.
  pub catch_subscribe-loses :
      (undo_sends : ℕ)
      → let prev = reg_effective l.subs in
        let next = reg_effective (subs_after l filters) in
        removes_wildcard prev next ≡ true
        → removes_wildcard next prev ≡ false
        → length next ≤ catch_max_entries
        → length (catch_sync next prev) ≤ undo_sends
        → lookup k prev ≡ some f
        → lookup k next ≡ some f
        → let (l', result) =
            catch_subscribe (length (removals true prev next) + 1) undo_sends filters l in
          (result ≡ err SubscribeError.send_failed)
          × (l'.subs ≡ l.subs)
          × (lookup k l'.desired.catch ≡ some f)
          × (lookup k l'.table ≡ none)
  unfolding catch_subscribe roll_back detach_sub
  catch_subscribe-loses undo_sends w v fits enough p n =
      let prev = reg_effective l.subs in
      let next = reg_effective (subs_after l filters) in
      let (sp, kp) = reg_effective-IsTable l.subs in
      let (sn, kn) = reg_effective-IsTable (subs_after l filters) in
      let fits' : ltb catch_max_entries (length next) ≡ false = ground (arith, fits) in
      let sent : send_frames (length (removals true prev next) + 1) (catch_sync prev next) l.table
          ≡ ([], false) =
        cut_after_clear prev next l.table k f w n in
      let undone = send_frames_all undo_sends (catch_sync next prev) [] enough in
      rw (fits', sent, retain_new l.catch_gen filters l.subs synced.given, undone)
        (
          refl,
          refl,
          ap (lookup k) (set_catch_lem prev (set_catch next l.desired)) ∙ p,
          lookup-lost next prev k f v sp kn kp n p,
        )
