-- ===== src/Link/Subscribe/Runs.antt =====
-- Runs of the subscription calls of src/link/catch.rs.
use medius.Base.{
  ℕ, ◌+◌, ◌-◌, ◌≤◌, ◌<◌, ◌≡◌, ◌⊎◌, refl, arith, none, some, List, [], ◌∷◌, ◌++◌, length,
}
use medius.Base.{true, ok, err, retain, replicate}
use medius.Base.Map.{lookup, contains_key, insert, remove}
use medius.Types.Direction.{Direction}
use medius.Types.Catch.{CatchClass, CatchFilter, Capture, filter_key, filter_key_order}
use medius.Types.Clock.{ClockDomain}
use medius.Types.Event.{CatchEvent}
use medius.Link.Reconcile.State.{FilterSet, default_state}
use medius.Link.Reconcile.Session.{set_catch}
use medius.Link.Catch.{catch_sync, effective, removes_wildcard, removals}
use medius.Link.Subscribe.{
  CatchLink, CatchSub, SubscribeError, catch_capacity, catch_max_entries, new_sub, reg_effective,
  wanted, deliver_to, push_event, catch_subscribe,
}
use medius.Link.Subscribe.Delivery.{deliver_all, deliver_all_lem, last_of}
use medius.Link.Subscribe.Synced.{IsSynced, subs_after, catch_subscribe-IsSynced}
use medius.Link.Subscribe.Lost.{catch_subscribe-loses}

abbrev anything : Direction → CatchFilter
anything d = record { class = none; id = none; direction = d; capture = Capture.whole }

abbrev reports : CatchFilter
reports = record {
  class = some CatchClass.hid_in;
  id = some 2;
  direction = Direction.positive;
  capture = Capture.first 16;
}

abbrev only : CatchFilter → FilterSet
only f = (filter_key f, f) ∷ []

-- A subscriber of every event, and one of every event of one direction.
abbrev two_subs : List CatchSub
two_subs =
    new_sub 0 (only (anything Direction.both)) ∷ new_sub 1 (only (anything Direction.positive)) ∷ []

abbrev link_of : List CatchSub → CatchLink
link_of subs = record {
  subs = subs;
  catch_gen = 2;
  desired = set_catch (reg_effective subs) default_state;
  table = reg_effective subs;
}

link_of-IsSynced : IsSynced (link_of two_subs)
unfolding set_catch
link_of-IsSynced = record { table = refl; desired = refl; given = omega arith }

catch_subscribe-IsSynced_example :
    let (l', result) = catch_subscribe 9 0 (only reports) (link_of two_subs) in
    IsSynced l'
    × (((result ≡ ok 2)
          × (l'.subs ≡ subs_after (link_of two_subs) (only reports))
          × (length (reg_effective (subs_after (link_of two_subs) (only reports)))
              ≤ catch_max_entries))
        ⊎ ((result
              ≡ err (
                  SubscribeError.catch_table_full
                    (length (reg_effective (subs_after (link_of two_subs) (only reports))))
                    catch_max_entries))
            × (l'.subs ≡ two_subs)
            × (l'.table ≡ reg_effective two_subs)
            × (catch_max_entries
                < length (reg_effective (subs_after (link_of two_subs) (only reports))))))
catch_subscribe-IsSynced_example =
    catch_subscribe-IsSynced (link_of two_subs) (only reports) link_of-IsSynced (omega arith) 9 0
      (unfold reg_effective catch_sync effective lookup contains_key insert remove in omega arith)

-- The opposite direction merges with the two entries of the table into one.
catch_subscribe-loses_example :
    let (l', result) =
      catch_subscribe
        (length (
            removals true
              (reg_effective two_subs)
              (reg_effective (subs_after (link_of two_subs) (only (anything Direction.negative)))))
          + 1)
        9
        (only (anything Direction.negative))
        (link_of two_subs) in
    (result ≡ err SubscribeError.send_failed)
    × (l'.subs ≡ two_subs)
    × (lookup (filter_key (anything Direction.both)) l'.desired.catch
        ≡ some (anything Direction.both))
    × (lookup (filter_key (anything Direction.both)) l'.table ≡ none)
catch_subscribe-loses_example =
    catch_subscribe-loses (link_of two_subs) (only (anything Direction.negative)) link_of-IsSynced
      (filter_key (anything Direction.both)) (anything Direction.both) 9
      (unfold reg_effective removes_wildcard effective lookup contains_key insert remove in refl)
      (unfold reg_effective removes_wildcard effective lookup contains_key insert remove in refl)
      (unfold reg_effective effective lookup contains_key insert remove in omega arith)
      (unfold reg_effective catch_sync effective lookup contains_key insert remove in omega arith)
      (unfold reg_effective effective lookup contains_key insert remove in refl)
      (unfold reg_effective effective lookup contains_key insert remove in refl)

abbrev report : ℕ → CatchEvent
report t = CatchEvent.traffic (record {
  ts_us = t;
  clock = ClockDomain.host_chip;
  class = CatchClass.hid_in;
  id = 2;
  direction = Direction.positive;
  flags = 0;
  true_len = 0;
  bytes = [];
})

abbrev full_sub : CatchSub
full_sub = record (new_sub 0 (only reports)) { queue = replicate 256 (report 1) }

deliver_all_lem_example :
    let all = full_sub.queue ++ retain (wanted full_sub.filters) (report 2 ∷ report 3 ∷ []) in
    ((deliver_all (report 2 ∷ report 3 ∷ []) full_sub).queue ≡ last_of catch_capacity all)
    × ((deliver_all (report 2 ∷ report 3 ∷ []) full_sub).dropped
        ≡ full_sub.dropped + (length all - catch_capacity))
deliver_all_lem_example =
    deliver_all_lem (report 2 ∷ report 3 ∷ []) full_sub (omega arith) (omega arith)

two_dropped : (deliver_all (report 2 ∷ report 3 ∷ []) full_sub).dropped ≡ 2
unfolding deliver_all deliver_to push_event wanted
two_dropped = refl
