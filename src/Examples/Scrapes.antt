-- ===== src/Examples/Scrapes.antt =====
-- The theorems on the metrics of the engine, at scrapes of one histogram.
use Prim.Native.String.{String, ◌++◌ as append}
use lss.Base.{ℕ, ◌≤◌, ◌<◌, ◌≡◌, refl, inl, none, some, List, [], ◌∷◌, ◌++◌, All, ◌*◌, arith}
use lss.Prom.Parse.{Labels, show_labels, labels_from, parse_labels, text_length}
use lss.Prom.Labels.{parse_labels-show_labels}
use lss.Prom.Rounds.{rounds_suffice}
use lss.Hist.{HistSnapshot, HistAccum, no_accum}
use lss.Hist.Tracker.{HistSet, Accs, add_deltas, no_accs, observe}
use lss.Hist.Close.{Scrape}
use lss.Hist.Shape.{Fits, ScrapeWhole, window-Fits}
use lss.Examples.Data.{milli}

-- a key with a digit and values with a quote, a backslash and a line feed
abbrev labels : Labels
labels = ("le1", "a\"b\\") ∷ ("mode", "x\ny,}") ∷ []

parse_labels-show_labels_example :
    parse_labels (append (show_labels labels) (String.◌∷◌ "}" " 3")) ≡ some (labels, " 3")
parse_labels-show_labels_example =
    parse_labels-show_labels labels " 3"
      ((refl, (refl, (refl, tt))), ((refl, (refl, (refl, (refl, tt)))), tt))

short_text : text_length "a=\"1\"} 3" < 9
unfolding text_length
short_text = omega arith

rounds_suffice_example : labels_from 9 "a=\"1\"} 3" ≡ parse_labels "a=\"1\"} 3"
rounds_suffice_example = rounds_suffice 9 "a=\"1\"} 3" short_text

-- so many requests, all in the first of two buckets
abbrev snapshot : ℕ → HistSnapshot milli
snapshot n = record { bounds = 100 ∷ 200 ∷ []; cum = n ∷ n ∷ n ∷ []; sum = n * 50; count = n }

abbrev scrape : ℕ → HistSet milli
scrape n = some (snapshot n) ∷ none ∷ none ∷ none ∷ none ∷ none ∷ []

abbrev scrapes : List (Scrape milli)
scrapes = (59, some (scrape 5000)) ∷ (40, none) ∷ (10, some (scrape 2000)) ∷ []

-- the window that is open at 61
abbrev second_minute : Accs milli
second_minute = add_deltas milli (scrape 5000) (scrape 7000) (no_accs milli)

minute_open :
    (observe milli
      (lss.Hist.Close.run milli ((59, some (scrape 5000)) ∷ []))
      61
      (some (scrape 7000))).0.minute
    ≡ some (60, second_minute)
unfolding lss.Hist.Close.run observe add_deltas
minute_open = refl

scrapes_whole : All (ScrapeWhole milli) ((61, some (scrape 7000)) ∷ (59, some (scrape 5000)) ∷ [])
scrapes_whole =
    ((refl, (tt, (tt, (tt, (tt, (tt, tt)))))), ((refl, (tt, (tt, (tt, (tt, (tt, tt)))))), tt))

window-Fits_example : (60 ≤ 61) × All (Fits milli) second_minute
window-Fits_example =
    window-Fits milli ((59, some (scrape 5000)) ∷ []) 61 (some (scrape 7000)) 60 second_minute
      scrapes_whole (inl minute_open)
