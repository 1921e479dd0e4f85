-- ===== src/Arguments/Runs.antt =====
-- The programs run exactly where their options say so.
use overwitch.Arguments.Mains.{
  Outcome, exits, runs, renames, Parsed, parsed, helped, refused, is_bad_address, never, parse,
  parse_play, parse_record, parse_cli, choose_play, choose_record, choose_cli, main_play,
  main_record, main_cli,
}
use overwitch.Arguments.Counts.{
  is_address, is_mask, is_priority, is_rename, RecordCounts, CliCounts, parse-total, parse-clean,
  clean-parse, take_play-StepCounts, take_record-StepCounts, take_cli-StepCounts, parse-PlayCounts,
}
use overwitch.Prelude.{ℕ, ◌≡◌, ◌≢◌, ◌↔◌, refl, sym, ◌∙◌, Bool, List, [], ◌∷◌, count_if, arith}
use overwitch.Arguments.Options.{Opt, Settings, defaults, take_play, take_record, take_cli}
use overwitch.Arguments.Chosen.{
  PlayRuns, RecordRuns, CliGoes, chosen_play, play_chosen, chosen_record, record_chosen, chosen_cli,
  cli_chosen,
}

counted_record :
    (os : List Opt) (t : Settings)
    → parse take_record never os defaults ≡ parsed t
    → RecordCounts os t
counted_record os t h = record {
  common = parse-PlayCounts take_record never (λ o s. (take_record-StepCounts o s).0) os t h;
  aflg =
      parse-total take_record never (λ s. s.aflg) is_address
        (λ o s. (take_record-StepCounts o s).1.0) refl os t h;
  mflg =
      parse-total take_record never (λ s. s.mflg) is_mask (λ o s. (take_record-StepCounts o s).1.1)
        refl os t h;
}

counted_cli :
    (os : List Opt) (t : Settings)
    → parse take_cli is_bad_address os defaults ≡ parsed t
    → CliCounts os t
counted_cli os t h = record {
  common = parse-PlayCounts take_cli is_bad_address (λ o s. (take_cli-StepCounts o s).0) os t h;
  aflg =
      parse-total take_cli is_bad_address (λ s. s.aflg) is_address
        (λ o s. (take_cli-StepCounts o s).1.0) refl os t h;
  pflg =
      parse-total take_cli is_bad_address (λ s. s.pflg) is_priority
        (λ o s. (take_cli-StepCounts o s).1.1) refl os t h;
  rflg =
      parse-total take_cli is_bad_address (λ s. s.rflg) is_rename
        (λ o s. (take_cli-StepCounts o s).1.2) refl os t h;
}

never-none : (os : List Opt) → count_if never os ≡ 0
never-none [] = refl
never-none (o ∷ os) = omega (arith, never-none os)

-- A `main` goes on behind its loop.
pub main_parsed :
    (code : ℕ) (p : Parsed) (f : Settings → Outcome) (o : Outcome)
    → ((n : ℕ) → o ≢ exits n)
    → (elim p as (λ q. Outcome) [ parsed s ↦ f s | helped ↦ exits 0 | refused ↦ exits code ]) ≡ o
    → (t : Settings) × (p ≡ parsed t) × (f t ≡ o)
main_parsed code (parsed s) f o h e = (s, refl, e)
main_parsed code helped f o h e = absurd (h 0 (sym e))
main_parsed code refused f o h e = absurd (h code (sym e))

-- overwitch-play runs exactly if there is a file, no option is unknown or asks for help or a list,
-- blocks and timeout are given at most once, and a number or a name is given, once; however often
-- an address is given.
main_play_runs :
    (has_file : Bool) (os : List Opt)
    → ((s : Settings) × (main_play has_file os ≡ runs s)) ↔ PlayRuns has_file os
unfolding main_play parse_play
main_play_runs has_file os = (
  (λ r.
      let (t, p, e) =
        main_parsed 1 (parse take_play never os defaults) (choose_play has_file) (runs r.0)
          (λ n. λ h. cc) r.1 in
      chosen_play has_file os t r.0 (parse-PlayCounts take_play never take_play-StepCounts os t p)
        (parse-clean take_play never os defaults t p).0 e),
  (λ c.
      let (t, p) = clean-parse take_play never os defaults c.1 (never-none os) in
      (
        t,
        rw (p, main_play)
            (play_chosen has_file os t
              (parse-PlayCounts take_play never take_play-StepCounts os t p) c),
      )),
)

-- overwitch-record runs exactly if no option is unknown or asks for help or a list, mask, blocks and
-- timeout are given at most once, and one of number, name and address is given, once.
main_record_runs : (os : List Opt) → ((s : Settings) × (main_record os ≡ runs s)) ↔ RecordRuns os
unfolding main_record parse_record
main_record_runs os = (
  (λ r.
      let (t, p, e) =
        main_parsed 1 (parse take_record never os defaults) choose_record (runs r.0) (λ n. λ h. cc)
          r.1 in
      chosen_record os t r.0 (counted_record os t p)
        (parse-clean take_record never os defaults t p).0 e),
  (λ c.
      let (t, p) = clean-parse take_record never os defaults c.0 (never-none os) in
      (t, rw (p, main_record) (record_chosen os t (counted_record os t p) c))),
)

pub cli_parsed :
    (os : List Opt) (o : Outcome)
    → ((n : ℕ) → o ≢ exits n)
    → main_cli os ≡ o
    → (t : Settings) × (parse take_cli is_bad_address os defaults ≡ parsed t) × (choose_cli t ≡ o)
unfolding main_cli parse_cli
cli_parsed os o h e = main_parsed 234 (parse take_cli is_bad_address os defaults) choose_cli o h e

parsed_cli :
    (os : List Opt) (t : Settings)
    → parse take_cli is_bad_address os defaults ≡ parsed t
    → main_cli os ≡ choose_cli t
unfolding main_cli parse_cli
parsed_cli os t p = rw (p, main_cli) refl

-- overwitch-cli goes on exactly if no option is unknown or asks for help or a list, no address is
-- malformed, blocks, timeout and priority are given at most once, and one of number, name and
-- address is given, once; without a new name it runs, with one it renames the device.
main_cli_goes :
    (os : List Opt)
    → (((s : Settings) × (main_cli os ≡ runs s)) ↔ (CliGoes os × (count_if is_rename os ≡ 0)))
      × (((s : Settings) × (main_cli os ≡ renames s)) ↔ (CliGoes os × (count_if is_rename os ≡ 1)))
main_cli_goes os = (
  (
    (λ r.
        let (t, p, e) = cli_parsed os (runs r.0) (λ n. λ h. cc) r.1 in
        (chosen_cli os t r.0 (counted_cli os t p)
            (parse-clean take_cli is_bad_address os defaults t p)).0
          e),
    (λ c.
        let (t, p) = clean-parse take_cli is_bad_address os defaults c.0.0 c.0.1 in
        (t, parsed_cli os t p ∙ (cli_chosen os t (counted_cli os t p) c.0).0 c.1)),
  ),
  (
    (λ r.
        let (t, p, e) = cli_parsed os (renames r.0) (λ n. λ h. cc) r.1 in
        (chosen_cli os t r.0 (counted_cli os t p)
            (parse-clean take_cli is_bad_address os defaults t p)).1
          e),
    (λ c.
        let (t, p) = clean-parse take_cli is_bad_address os defaults c.0.0 c.0.1 in
        (t, parsed_cli os t p ∙ (cli_chosen os t (counted_cli os t p) c.0).1 c.1)),
  ),
)

-- overwitch-play runs exactly if there is a file, no option is unknown or asks for help or a list,
-- blocks and timeout are given at most once, and a number or a name is given, once, however often
-- an address is given. overwitch-record runs exactly if no option is unknown or asks for help or a
-- list, mask, blocks and timeout are given at most once, and one of number, name and address is
-- given, once. overwitch-cli goes on exactly if the same holds of its options, with the priority in
-- place of the mask, and no address is malformed; it renames the device if a new name is given, once.
pub programs_run :
    (has_file : Bool) (os : List Opt)
    → (((s : Settings) × (main_play has_file os ≡ runs s)) ↔ PlayRuns has_file os)
      × ((((s : Settings) × (main_record os ≡ runs s)) ↔ RecordRuns os)
          × ((((s : Settings) × (main_cli os ≡ runs s))
                ↔ (CliGoes os × (count_if is_rename os ≡ 0)))
              × (((s : Settings) × (main_cli os ≡ renames s))
                  ↔ (CliGoes os × (count_if is_rename os ≡ 1)))))
programs_run has_file os = (main_play_runs has_file os, (main_record_runs os, main_cli_goes os))
