-- ===== src/Webhook/Redirect.antt =====
-- The SSRF guard on the redirect loop of `postGuarded`.
use scan_pal.Common.{ℕ, zero, suc, ◌+◌, ◌≤◌, ◌≡◌, refl, List, [], ◌∷◌, arith, String, length, All}
use scan_pal.Webhook.Outbox.{max_redirects}
use scan_pal.Webhook.Deliver.{
  UrlAllowance, allowed, World, PostResult, PostStep, stop, go, end_round, post_loop, post_guarded,
}

-- The requested URLs have passed the guard, and are `most` at most.
abbrev IsGuarded : World → ℕ → PostResult × List String → Type 0
IsGuarded world most r = All (λ u. world.is_url_allowed u ≡ allowed) (r.1) × (length (r.1) ≤ most)

end_round-IsGuarded :
    (world : World) (most : ℕ) (a : UrlAllowance) (step : PostStep) (current : String)
    (fetched : List String) (more : String → PostResult × List String)
    → world.is_url_allowed current ≡ a
    → All (λ u. world.is_url_allowed u ≡ allowed) fetched
    → suc (length fetched) ≤ most
    → (a ≡ allowed → (next : String) → IsGuarded world most (more next))
    → IsGuarded world most (end_round a step current fetched more)
end_round-IsGuarded world most (UrlAllowance.refused r) step current fetched more e h l k =
    (h, omega arith)
end_round-IsGuarded world most allowed (stop r) current fetched more e h l k = ((e, h), l)
end_round-IsGuarded world most allowed (go next) current fetched more e h l k = k refl next

post_loop-IsGuarded :
    (world : World) (rounds most : ℕ) (current : String) (fetched : List String)
    → All (λ u. world.is_url_allowed u ≡ allowed) fetched
    → rounds + length fetched ≤ most
    → IsGuarded world most (post_loop world rounds current fetched)
unfolding post_loop
post_loop-IsGuarded world zero most current fetched h l = (h, omega arith)
post_loop-IsGuarded world (suc rounds) most current fetched h l =
    end_round-IsGuarded world most _ _ current fetched _ refl h (omega arith) (λ e next.
      post_loop-IsGuarded world rounds most next (current ∷ fetched) (e, h) (omega arith))

-- Every URL that postGuarded requests, redirects included, is one that its guard allows, and it
-- requests six URLs at most.
pub post_guarded-allowed :
    (world : World) (url : String)
    → All (λ u. world.is_url_allowed u ≡ allowed) (post_guarded world url).1
      × (length (post_guarded world url).1 ≤ suc max_redirects)
unfolding post_guarded
post_guarded-allowed world url =
    post_loop-IsGuarded world (suc max_redirects) (suc max_redirects) url [] tt (omega arith)
