-- ===== src/App/ClientRuns.antt =====
-- apps/game-client-app/main.cpp: a whole run of the program.
use Prim.Native.String.{String}
use bcp_concept_prototype.Prelude.{
  ℕ, suc, ◌<◌, ◌≡◌, refl, inl, inr, true, not, ◌&&◌, List, [], some, arith, if◌then◌else◌,
  Bool-cases,
}
use bcp_concept_prototype.Prelude.Ints.{pos, is_negative}
use bcp_concept_prototype.App.{Platform, posix, windows, Arrivals}
use bcp_concept_prototype.App.Loop.{deliver, run_loop}
use bcp_concept_prototype.App.Stops.{
  is_stop, IsLastPass, HasSignals, registered, IsRegistered, signal-IsRegistered,
  console-IsRegistered, iterate, run_loop-last,
}
use bcp_concept_prototype.App.Clients.{logged, Started, create_clients-Started}
use bcp_concept_prototype.App.GameClient.{
  GameClientApp, ClientMachine, set_keep_going, on_signal, sig_handler, ctrl_handler, handler,
  for_clients, register_signal, process_options, pass, main_loop, set_up, tear_down, run_main, new,
  main, create_clients,
}

handler-keep :
    (m : ClientMachine) (p : Platform) (sig : ℕ) (a : GameClientApp m)
    → registered m.machine p sig ≡ true
    → ((handler m p sig a).keep_going ≡ a.keep_going && not (is_stop p sig))
      × ((handler m p sig a).clients ≡ a.clients)
unfolding handler sig_handler ctrl_handler on_signal set_keep_going is_stop registered
handler-keep m posix sig a r = ground arith
handler-keep m windows sig a r = ground arith

register_signal-IsRegistered :
    (m : ClientMachine) (p : Platform)
    → HasSignals m.machine
    → IsRegistered m.machine p (register_signal m p m.no_handlers)
unfolding register_signal
register_signal-IsRegistered m posix sg = signal-IsRegistered m.machine sg
register_signal-IsRegistered m windows sg = console-IsRegistered m.machine sg

module _ (m : ClientMachine) (p : Platform) (s : Arrivals) (n fuel : ℕ)
    (sg : HasSignals m.machine) where
  abbrev handlers : m.Handlers
  handlers = register_signal m p m.no_handlers

  main_loop_of :
      (cs : List m.Client) (a : GameClientApp m) (w : m.World)
      → a.clients ≡ cs
      → main_loop m p handlers s fuel a w
        ≡ run_loop
            (λ a. a.keep_going)
            (deliver m.machine p handlers (handler m p))
            (pass m cs)
            s.during
            fuel
            0
            a
            w
  unfolding main_loop
  main_loop_of cs a w e = rw (← e) refl

  run_main-last :
      (a : GameClientApp m) (w : m.World)
      → IsLastPass m.machine p s n
      → suc n < fuel
      → a.keep_going ≡ true
      → (a' : GameClientApp m) × (run_main m p handlers s fuel a w
          ≡ some (some (a', pos 0), tear_down m a.clients (iterate (pass m a.clients) (suc n) w)))
  unfolding run_main
  run_main-last a w h f g =
      let (b, a', d, u, r, v) =
        run_loop-last m.machine sg p handlers (register_signal-IsRegistered m p sg)
          (λ a. a.keep_going) (handler m p) (pass m a.clients) (λ a. a.clients) (handler-keep m p) s
          n fuel a w h f g in
      (a', rw (run_main, d, main_loop_of a.clients b w u, r, v) refl)

  -- With fuel for more than n + 1 passes, where no signal that comes up to pass n (counted from 0) of
  -- the loop ends the process by the rules of the platform, and the first SIGINT, or event of the
  -- console to stop, comes in this pass, the program ends by itself. Its exit status is 0 whatever
  -- the options are. Where process_options() returns a negative code, nothing else has been done.
  -- Otherwise the directories are created and the log file is set, as many clients as the
  -- configuration asks for are made and started in turn, and those are kept whose constructor and
  -- start() have not thrown; n + 1 times the program sleeps and runs each client that it kept, then
  -- it stops the io_service and each of these clients, and joins the io thread.
  pub main_of_client :
      (argc : ℕ) (argv : List String) (w : m.World)
      → IsLastPass m.machine p s n
      → suc n < fuel
      → let (c, code) = process_options m argv m.default_config w in
        (clients : List m.Client) × (made : m.World) × Started m c 0 c.client_cnt
          (logged m c w)
          clients
          made
        × (main m p s fuel argc argv w
            ≡ some (
              some (pos 0),
              if is_negative code
                  then w
                  else m.join_io_thread (
                      for_clients m m.stop_client clients (
                        m.stop_io_service (
                          iterate
                            (λ w. for_clients m m.client_main clients (m.sleep_for 1000 w))
                            (suc n)
                            (m.run_io_service made)))),
            ))
  unfolding main new pass tear_down set_up
  main_of_client argc argv w h f =
      let r = process_options m argv m.default_config w in
      let (clients, made) = create_clients m (r.0) r.0.client_cnt 0 [] (logged m (r.0) w) in
      let started = m.run_io_service made in
      let a : GameClientApp m = record {
        argc = argc;
        argv = argv;
        exit_code = pos 0;
        keep_going = true;
        app_config = r.0;
        clients = clients;
      } in
      let all = create_clients-Started m (r.0) r.0.client_cnt 0 (logged m (r.0) w) in
      (
        clients,
        made,
        all,
        elim (Bool-cases (is_negative r.1)) [
          | inl e ↦ rw (main, new, e) refl
          | inr e ↦ let (a', run) = run_main-last a started h f refl in rw (main, new, e, run) refl
        ],
      )
