-- ===== src/Parser/Hostname/Loop.antt =====
-- parseHostname: what it ends in, on every hostname.
use fox.Prelude.{
  ℕ, zero, suc, ◌≤◌, ◌<◌, ◌≡◌, refl, true, false, List, [], ◌∷◌, arith, length, Bytes,
}
use fox.Route.{Token}
use fox.Parser.{Limits, Library}
use fox.Parser.Outcome.{Ends, holds, Within, Ends-bind, Ends-reject}
use fox.Parser.Hostname.{Progress, host_loop, host_start, host_finish, parse_hostname}
use fox.Parser.Hostname.Round.{is_host_text, empty-host_text, Invariant, round-Ends}
use fox.Parser.Reading.{IsRead, Reading-start, Reading-end}

abbrev pub ReadsHost : Limits → Bytes → List Token × ℕ → Type 0
ReadsHost limits host (tokens, count) = IsRead is_host_text limits host 0 false tokens count

module _ (lib : Library) (limits : Limits) (host : Bytes) where
  loop-Ends :
      (f : ℕ) (s : Progress) (text : Bytes)
      → Invariant lib limits host s
      → s.rest ≡ text
      → length text < f
      → Ends
          (λ s'. Invariant lib limits host s' × (s'.rest ≡ []))
          (Within (length host))
          (host_loop lib limits f s text)
  unfolding host_loop
  loop-Ends zero s text inv r l = ground (arith, l)
  loop-Ends (suc f) s [] inv r l = holds (inv, r)
  loop-Ends (suc f) s (c ∷ after) inv r l =
      Ends-bind (round-Ends lib limits host s c after inv r)
        (λ s' (i, k). loop-Ends f s' s'.rest i refl (omega (arith, k, l)))

  finish-Ends :
      (s : Progress)
      → Invariant lib limits host s
      → s.rest ≡ []
      → Ends (ReadsHost limits host) (Within (length host)) (host_finish (length host) s)
  unfolding host_finish
  finish-Ends s (inv, low) r =
      let l : s.label_start ≤ length host = omega (arith, low, inv.place) in
      Ends-bind (Ends-reject _ _ (λ _. (omega arith, omega arith))) (λ _ _.
        Ends-bind (Ends-reject _ _ (λ _. (omega arith, omega arith))) (λ _ _.
          Ends-bind (Ends-reject _ _ (λ _. (omega arith, omega arith))) (λ _ _.
            Ends-bind (Ends-reject _ _ (λ _. (l, omega arith))) (λ _ _.
              Ends-bind (Ends-reject _ _ (λ _. (omega arith, omega arith))) (λ _ _.
                holds (Reading-end is_host_text limits host 0 empty-host_text true inv r))))))

  -- parseHostname returns tokens that print as the hostname, with literal texts of label bytes and
  -- dots, names in bounds and a count of the parameters that is right and in bounds, or an error whose
  -- positions are within the hostname. The fuel never runs out.
  pub parse_hostname-Ends :
      Ends (ReadsHost limits host) (Within (length host)) (parse_hostname lib limits host)
  unfolding parse_hostname
  parse_hostname-Ends =
      Ends-bind
        (loop-Ends (suc (length host)) (host_start host) host
          (Reading-start is_host_text limits host 0 empty-host_text (omega arith), omega arith) refl
          (omega arith))
        (λ s (inv, r). finish-Ends s inv r)
