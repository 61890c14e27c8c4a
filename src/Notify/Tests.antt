-- ===== src/Notify/Tests.antt =====
-- A team of two with one webhook, and the theorems about the hub at it.
use scan_pal.Common.{
  ℕ, ◌≡◌, ◌==◌, refl, inl, inr, none, some, [], ◌∷◌, true, false, All, exists, if◌then◌else◌,
}
use scan_pal.Team.Store.{Membership, member, accepted, pending}
use scan_pal.Notify.Hub.{scan_diff, scan_done, default_enabled, NotifyInput, Store, notify, has_key}
use scan_pal.Notify.Again.{notify_all, notify_all-notify_all}
use scan_pal.Notify.Once.{users_of, hooks_of, notify-notify}

abbrev member_of : ℕ → ℕ → Membership
member_of team user = record {
  team_id = team;
  user_id = user;
  role = member;
  status = accepted;
  invited_by = none;
}

abbrev team : Store ℕ
team = record {
  memberships =
      member_of 7 1
      ∷ member_of 7 2
      ∷ record { team_id = 7; user_id = 3; role = member; status = pending; invited_by = none }
      ∷ member_of 8 4
      ∷ [];
  preference = λ user type. if user == 2 then some false else none;
  webhooks =
      record { id = 5; team_id = 7; active = true; events = scan_done ∷ scan_diff ∷ [] } ∷ [];
  notifications = [];
  deliveries = [];
}

abbrev event : NotifyInput ℕ
event = record { type = scan_diff; team_id = 7; entity_id = 40; incident_id = none; payload = 0 }

-- One of the two members wants it, and the mail fails.
sent_once : (notify ℕ (λ u. false) event team).1.recipients ≡ 2
unfolding notify default_enabled
sent_once = refl

mailed_none : (notify ℕ (λ u. false) event team).1.emails_failed ≡ 1
unfolding notify has_key default_enabled
mailed_none = refl

notify-notify_example :
    let after = (notify ℕ (λ u. true) event team).0 in
    let (again, r) = notify ℕ (λ u. true) event after in
    All (λ u. exists (has_key ℕ event u) after.notifications ≡ true) (users_of event team)
    × All (λ w. exists (has_key ℕ event w) after.deliveries ≡ true) (hooks_of event team)
    × (again ≡ after)
    × (r.inserted ≡ 0)
    × (r.emails_sent ≡ 0)
    × (r.emails_failed ≡ 0)
    × (r.outbox_queued ≡ 0)
notify-notify_example = notify-notify (λ u. true) (λ u. true) event team

abbrev done : NotifyInput ℕ
done = record event { type = scan_done }

notify_all-notify_all_example :
    notify_all
      (λ u. true)
      (event ∷ [])
      (notify_all (λ u. false) (done ∷ record event { payload = 1 } ∷ []) team)
    ≡ notify_all (λ u. false) (done ∷ record event { payload = 1 } ∷ []) team
notify_all-notify_all_example =
    notify_all-notify_all (λ u. false) (λ u. true) (done ∷ record event { payload = 1 } ∷ [])
      (event ∷ []) team (inr (inl refl), tt)
