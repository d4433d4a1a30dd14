-- ===== src/Ui/Sparkline/Current.antt =====
-- What the plot shows along the life of the component.
use bigfleet_web_dashboard.Prelude.{◌+◌, ◌≡◌, refl, ◌∙◌, Bool, true, false, none, some, arith}
use bigfleet_web_dashboard.Ui.Sparkline.{
  Props, Plot, Chart, destroy, mount, update, Live, mounted, committed,
}

module _ (Data Series Format : Type 0) where
  -- A plot with the data and the size of the last commit, and the options of the first.
  abbrev pub current : Props Data Series Format → Props Data Series Format → Plot Data Series Format
  current first p = record {
    values = p.values;
    series = first.series;
    width = p.width;
    height = p.height;
    y_format = first.y_format;
  }

  update_lem :
      (first p q : Props Data Series Format) (c : Chart Data Series Format)
      (new_data new_size : Bool)
      → (new_data ≡ false → q.values ≡ p.values)
      → (new_size ≡ false → (q.width ≡ p.width) × (q.height ≡ p.height))
      → c.plot ≡ some (current first p)
      → ((update Data Series Format new_data new_size q c).plot ≡ some (current first q))
        × ((update Data Series Format new_data new_size q c).alive ≡ c.alive)
  unfolding update
  update_lem first p q c true true h k e = (rw e refl, refl)
  update_lem first p q c true false h k e = let (w, t) = k refl in (rw e (cc (w, t)), refl)
  update_lem first p q c false true h k e = let d = h refl in (rw e (cc d), refl)
  update_lem first p q c false false h k e =
      let d = h refl in let (w, t) = k refl in (rw e (cc (d, w, t)), refl)

  Live-current :
      {first : Props Data Series Format} {start : Chart Data Series Format}
      {p : Props Data Series Format} {c : Chart Data Series Format}
      → Live Data Series Format first start p c
      → (c.plot ≡ some (current first p)) × (c.alive ≡ start.alive + 1)
  unfolding mount
  Live-current mounted = (refl, refl)
  Live-current {first} (committed {p = p} {c = c} q new_data new_size l h k) =
      let (shown, one) = Live-current l in
      let (shown', same) = update_lem first p q c new_data new_size h k shown in
      (shown', same ∙ one)

  -- While the component, mounted where its ref held no plot, stays mounted, there is one plot more
  -- than before. It shows the data and the size of the last commit, but the series and the
  -- formatter of the first; unmounting takes it away.
  pub Live-plot :
      {first p : Props Data Series Format} (start c : Chart Data Series Format)
      → Live Data Series Format first start p c
      → start.plot ≡ none
      → (c.plot ≡ some (current first p))
        × (c.alive ≡ start.alive + 1)
        × (destroy Data Series Format c ≡ start)
  unfolding destroy
  Live-plot start c l e = let (shown, one) = Live-current l in (shown, one, ground arith)
