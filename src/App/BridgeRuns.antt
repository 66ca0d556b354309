-- ===== src/App/BridgeRuns.antt =====
-- apps/bridge-server-app/main.cpp: a whole run of the program.
use Prim.Native.String.{String}
use bcp_concept_prototype.Prelude.{
  ℕ, suc, ◌<◌, ◌≡◌, refl, inl, inr, true, not, ◌&&◌, List, some, arith, if◌then◌else◌, Bool-cases,
}
use bcp_concept_prototype.Prelude.Ints.{pos, is_negative}
use bcp_concept_prototype.App.{Platform, posix, windows, Machine, Arrivals}
use bcp_concept_prototype.App.Stops.{
  is_stop, IsLastPass, HasSignals, registered, IsRegistered, signal-IsRegistered,
  console-IsRegistered, iterate, run_loop-last,
}
use bcp_concept_prototype.App.BridgeServer.{
  AppConfig, BridgeServerApp, set_keep_going, on_signal, sig_handler, ctrl_handler, handler,
  register_signal, process_options, pass, main_loop, set_up, run_main, new, main,
}

handler-keep :
    (m : Machine AppConfig) (p : Platform) (sig : ℕ) (a : BridgeServerApp)
    → registered m p sig ≡ true
    → ((handler p sig a).keep_going ≡ a.keep_going && not (is_stop p sig))
      × ((handler p sig a).app_config ≡ a.app_config)
unfolding handler sig_handler ctrl_handler on_signal set_keep_going is_stop registered
handler-keep m posix sig a r = ground arith
handler-keep m windows sig a r = ground arith

register_signal-IsRegistered :
    (m : Machine AppConfig) (p : Platform)
    → HasSignals m
    → IsRegistered m p (register_signal m p m.no_handlers)
unfolding register_signal
register_signal-IsRegistered m posix sg = signal-IsRegistered m sg
register_signal-IsRegistered m windows sg = console-IsRegistered m sg

module _ (m : Machine AppConfig) (p : Platform) (s : Arrivals) (n fuel : ℕ)
    (sg : HasSignals m) where
  abbrev handlers : m.Handlers
  handlers = register_signal m p m.no_handlers

  run_main-last :
      (a : BridgeServerApp) (w : m.World)
      → IsLastPass m p s n
      → suc n < fuel
      → a.keep_going ≡ true
      → (a' : BridgeServerApp) × (run_main m p handlers s fuel a w
          ≡ some (
            some (a', pos 0),
            m.delete_server (m.stop_server (iterate (pass m) (suc n) (set_up m a.app_config w))),
          ))
  unfolding run_main main_loop
  run_main-last a w h f g =
      let (b, a', d, u, r, v) =
        run_loop-last m sg p handlers (register_signal-IsRegistered m p sg) (λ a. a.keep_going)
          (handler p) (pass m) (λ a. a.app_config) (handler-keep m p) s n fuel a
          (set_up m a.app_config w) h f g in
      (a', rw (run_main, main_loop, d, r) refl)

  -- With fuel for more than n + 1 passes, where no signal that comes up to pass n (counted from 0) of
  -- the loop ends the process by the rules of the platform, and the first SIGINT, or event of the
  -- console to stop, comes in this pass, the program ends by itself. Its exit status is 0 whatever
  -- the options are. Where process_options() returns a negative code, nothing else has
  -- been done; otherwise the directories are created, the log file
  -- is set and the server is created and started, n + 1 times the program sleeps and runs the
  -- server, and then stops and deletes it.
  pub main_of_bridge :
      (argc : ℕ) (argv : List String) (w : m.World)
      → IsLastPass m p s n
      → suc n < fuel
      → let (c, code) = process_options m argv m.default_config w in
        let started = m.start_server c (
          m.new_server c (
            m.log_file
              (m.format "%s/%%y-%%m-%%d/bridge-server-%d.log" c.log_dir (m.config_node_id c))
              (m.create_directories c w))) in
        main m p s fuel argc argv w
        ≡ some (
          some (pos 0),
          if is_negative code
              then w
              else m.delete_server
                  (m.stop_server (iterate (λ w. m.update (m.sleep_for 5 w)) (suc n) started)),
        )
  unfolding main new pass set_up
  main_of_bridge argc argv w h f =
      let r = process_options m argv m.default_config w in
      let a : BridgeServerApp = record {
        argc = argc;
        argv = argv;
        exit_code = pos 0;
        keep_going = true;
        app_config = r.0;
      } in
      elim (Bool-cases (is_negative r.1)) [
        | inl e ↦ rw (main, new, e) refl
        | inr e ↦ let (a', run) = run_main-last a w h f refl in rw (main, new, e, run) refl
      ]
