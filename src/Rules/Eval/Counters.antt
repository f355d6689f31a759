-- ===== src/Rules/Eval/Counters.antt =====
-- rules.rs: `eval_rejects` and `eval_disk`, the rules on counters and on the collector's disk.
use lss.Base.{
  ℕ, String, Option, none, some, Bool, List, [], ◌∷◌, ◌++◌, ltb, if◌then◌else◌, pos, concat, show_ℕ,
}
use lss.Base.Float.{F64}
use lss.Config.{RulesConfig}
use lss.TimeUtil.{fmt_duration}
use lss.Rules.Sustained.{Sustained, step}
use lss.Rules.Windows.{GrowthWindow, push, DiskGrowth, push_disk}
use lss.Rules.Types.{
  Severity, info, warn, page, AlertEvent, DiskObs, Observation, push_edge, used_pct, describe,
}
use lss.Rules.State.{Eval}

module _ (F : F64) (cfg : RulesConfig F) (o : Observation F) where
  open F use {Float, ratio, minus, times, over, le, show_fixed}

  -- one counter: its window, its growth and its events
  unfoldable pub count_rejects : ℕ → ℕ → GrowthWindow → GrowthWindow × ℕ × List AlertEvent
  count_rejects code value win =
      let (win', growth) = push win o.now value cfg.reject_window_secs in
      let (s, edge) = step win'.rule o.now (ltb cfg.reject_growth growth) 0 cfg.cooldown_secs in
      (
        record win' { rule = s },
        growth,
        push_edge edge o.now (concat ("rejects_" ∷ show_ℕ code ∷ [])) info
            (concat (
              "gate rejected_"
              ∷ show_ℕ code
              ∷ " grew by "
              ∷ show_ℕ growth
              ∷ " in "
              ∷ fmt_duration (pos cfg.reject_window_secs)
              ∷ " (> "
              ∷ show_ℕ cfg.reject_growth
              ∷ ")"
              ∷ []))
            (concat (
              "gate rejected_"
              ∷ show_ℕ code
              ∷ " growth back to normal ("
              ∷ show_ℕ growth
              ∷ " in "
              ∷ fmt_duration (pos cfg.reject_window_secs)
              ∷ ")"
              ∷ [])),
      )

  unfoldable pub rejects_413 : Option ℕ → Eval F
  rejects_413 none e = (e, [])
  rejects_413 (some value) e =
      let (win, growth, out) = count_rejects 413 value e.rejects_413 in
      (record e { rejects_413 = win; last = record e.last { growth_413 = some growth } }, out)

  unfoldable pub rejects_429 : Option ℕ → Eval F
  rejects_429 none e = (e, [])
  rejects_429 (some value) e =
      let (win, growth, out) = count_rejects 429 value e.rejects_429 in
      (record e { rejects_429 = win; last = record e.last { growth_429 = some growth } }, out)

  unfoldable pub eval_rejects : Eval F
  unfolding count_rejects rejects_413 rejects_429
  eval_rejects e =
      let (e', out) = rejects_413 o.rejected_413 e in
      let (e'', more) = rejects_429 o.rejected_429 e' in (e'', out ++ more)

  -- one line of the disk: once fired, a rule stays up until the margin below its line
  unfoldable pub is_over : Sustained → Float → Float → Bool
  is_over s pct line =
      if s.announced then le (minus line cfg.disk_recover_margin_pct) pct else le line pct

  unfoldable pub check_level :
      DiskObs → Float → String → Severity → Sustained → Sustained × List AlertEvent
  unfolding is_over
  check_level d line rule sev s =
      let (s', edge) =
        step s o.now (is_over s (used_pct F d) line) cfg.disk_secs cfg.cooldown_secs in
      (
        s',
        push_edge edge o.now rule sev
            (concat (
              "disk "
              ∷ d.path
              ∷ " on this box is "
              ∷ describe F d
              ∷ " - >= "
              ∷ show_fixed 0 line
              ∷ "% for "
              ∷ fmt_duration (pos cfg.disk_secs)
              ∷ []))
            (concat ("disk " ∷ d.path ∷ " back to " ∷ describe F d ∷ [])),
      )

  unfoldable pub check_pace : DiskObs → DiskGrowth → DiskGrowth × List AlertEvent
  check_pace d w =
      let line = times cfg.disk_growth_gb (ratio 1000000000 1) in
      let (w', drop) = push_disk w o.now d.avail_bytes cfg.disk_growth_secs in
      let (s, edge) = step w'.rule o.now (le line (ratio drop 1)) cfg.disk_secs cfg.cooldown_secs in
      let fill = concat (
        "lost "
        ∷ show_fixed 1 (over (ratio drop 1) (ratio 1000000000 1))
        ∷ " GB free of "
        ∷ d.path
        ∷ " in "
        ∷ fmt_duration (pos cfg.disk_growth_secs)
        ∷ " (now "
        ∷ describe F d
        ∷ ")"
        ∷ []) in
      (
        record w' { rule = s },
        push_edge edge o.now "disk_growth" warn
            (concat ("disk " ∷ d.path ∷ " is filling fast: " ∷ fill ∷ []))
            (concat ("disk " ∷ d.path ∷ " is no longer filling fast: " ∷ fill ∷ [])),
      )

  unfoldable pub on_disk : Option DiskObs → Eval F
  on_disk none e = (e, [])
  on_disk (some d) e =
      let (filled, a) = check_level d cfg.disk_warn_pct "disk_full" warn e.disk_full in
      let (paged, b) = check_level d cfg.disk_page_pct "disk_full_page" page e.disk_full_page in
      let (growth, c) = check_pace d e.disk_growth in
      (record e { disk_full = filled; disk_full_page = paged; disk_growth = growth }, a ++ (b ++ c))

  unfoldable pub eval_disk : Eval F
  unfolding check_level check_pace on_disk
  eval_disk e = on_disk o.disk e
