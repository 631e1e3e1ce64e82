-- ===== src/Examples/AcceptRuns.antt =====
-- src/aqua.rs: three connections and two failures.
use aqua.Base.{ℕ, ◌+◌, ◌≡◌, refl, false, List, [], ◌∷◌}
use aqua.Accept.{
  IncomingStream, Makers, Accepted, conn, failed, connection_reset, other_kind, serve_loop,
}
use aqua.Accept.Served.{Serves, pauses, serve_loop-Serves}

-- Streams, addresses and ids are numbers; a service is what it was told.
abbrev numbered : Makers
numbered = record {
  Stream = ℕ;
  Addr = ℕ;
  Uuid = ℕ;
  Gen = ℕ;
  new_v4 = λ g. (g, g + 1);
  Service = IncomingStream ℕ ℕ ℕ;
  ConnectService = IncomingStream ℕ ℕ ℕ;
  make_service = λ i. i;
  make_connect_service = λ i. i;
  service_keeps_stream = λ s. false;
  connect_service_keeps_stream = λ s. false;
}

abbrev arrivals : List (Accepted numbered)
arrivals = conn 10 1 ∷ failed other_kind ∷ conn 11 2 ∷ failed connection_reset ∷ conn 12 3 ∷ []

serve_loop-Serves_example :
    Serves numbered arrivals 0 (serve_loop numbered arrivals 100 0).tasks
    × ((serve_loop numbered arrivals 100 0).slept ≡ pauses numbered arrivals)
serve_loop-Serves_example = serve_loop-Serves numbered arrivals 100 0 (λ i. (refl, refl))

one_second : (serve_loop numbered arrivals 100 0).slept ≡ 1
unfolding serve_loop
one_second = refl
