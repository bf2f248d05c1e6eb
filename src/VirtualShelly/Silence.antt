-- ===== src/VirtualShelly/Silence.antt =====
-- How many responses src/virtual_shelly.rs counts.
use shelly_multiplexer.Prelude.{
  ℕ, suc, ◌-◌, ◌≤◌, ◌≡◌, refl, true, not, ◌&&◌, List, [], ◌∷◌, arith, leb, if◌then◌else◌, insert,
  keys, contains, length, on_each, string_key,
}
use shelly_multiplexer.Config.Types.{ip_key}
use shelly_multiplexer.VirtualShelly.{PeerMethod, peer_method_key, evict, count_response}

length-insert :
    (key : PeerMethod) (n : ℕ) (counters : List (PeerMethod × ℕ))
    → length (insert key n counters)
      ≡ (if contains (keys counters) key then length counters else suc (length counters))
unfolding insert contains
length-insert key n [] = refl
length-insert key n ((key', m) ∷ rest) = ground (arith, length-insert key n rest)

insert_bounded :
    (key : PeerMethod) (n : ℕ) (counters : List (PeerMethod × ℕ))
    → length counters ≤ 1024
    → (length counters ≡ 1024 → contains (keys counters) key ≡ true)
    → length (insert key n counters) ≤ 1024
insert_bounded key n counters h full = ground (arith, length-insert key n counters, h, full)

length-evict :
    {V : Type 0} (counters : List (PeerMethod × V)) → length (evict counters) ≡ length counters - 1
length-evict [] = refl
length-evict (c ∷ cs) = omega arith

-- The map of response counters never grows beyond 1024 entries: at 1024 entries a new peer or method
-- takes the place of an old one.
pub count_response_bounded :
    (key : PeerMethod) (counters : List (PeerMethod × ℕ))
    → length counters ≤ 1024
    → length (count_response key counters) ≤ 1024
unfolding count_response
count_response_bounded key counters h =
    let (fits, full) =
      on_each
        (λ (room : List (PeerMethod × ℕ)).
          (length room ≤ 1024) × (length room ≡ 1024 → contains (keys room) key ≡ true))
        (leb 1024 (length counters) && not (contains (keys counters) key)) {x = evict counters}
        {y = counters}
        (λ crowded. (
          omega (arith, length-evict counters, h),
          λ e. absurd (omega (arith, length-evict counters, h, e)),
        ))
        (λ fine. (h, λ e. ground (arith, fine, e))) in
    insert_bounded key _ _ fits full
