-- ===== src/Ui/Sparkline.antt =====
-- ui/src/components/Sparkline.tsx: the plot that the component keeps in a ref. `uPlot` is a
-- third-party library, of which a plot is what it was given last; React, another, runs the first
-- effect on mounting alone, and the others on mounting and after a commit that changed what they
-- depend on. The fixed options (legend, cursor, axes) are left out.
pub mod Current
use bigfleet_web_dashboard.Prelude.{
  ℕ, ◌+◌, ◌-◌, ◌≡◌, Bool, true, false, Option, none, some, if◌then◌else◌,
}

-- Over the types of the data, the series' options and the formatter of the axis.
module _ (Data Series Format : Type 0) where
  pub record Props : Type 0 where
    pub values : Data
    pub series : Series
    pub width : ℕ
    pub height : ℕ
    pub y_format : Option Format

  pub record Plot : Type 0 where
    pub values : Data
    pub series : Series
    pub width : ℕ
    pub height : ℕ
    pub y_format : Option Format

  -- The ref, and how many plots there are in the container.
  pub record Chart : Type 0 where
    pub plot : Option Plot
    pub alive : ℕ

  -- `new uPlot(opts, data, container)`; React has set the container's ref when the effect runs.
  unfoldable pub create : Props → Chart → Chart
  create p c = record {
    plot = some (record {
      values = p.values;
      series = p.series;
      width = p.width;
      height = p.height;
      y_format = p.y_format;
    });
    alive = c.alive + 1;
  }

  -- `plotRef.current?.setData(data)`
  unfoldable pub set_data : Props → Chart → Chart
  set_data p c = record c {
    plot = elim c.plot [ none ↦ none | some u ↦ some (record u { values = p.values }) ];
  }

  -- `plotRef.current?.setSize({ width, height })`
  unfoldable pub set_size : Props → Chart → Chart
  set_size p c = record c {
    plot = elim c.plot [
      | none ↦ none
      | some u ↦ some (record u { width = p.width; height = p.height })
    ];
  }

  -- The cleanup of the first effect.
  unfoldable pub destroy : Chart → Chart
  destroy c = record { plot = none; alive = elim c.plot [ none ↦ c.alive | some u ↦ c.alive - 1 ] }

  -- The three effects, in order.
  unfoldable pub mount : Props → Chart → Chart
  unfolding create set_data set_size
  mount p c = set_size p (set_data p (create p c))

  -- A later commit: `new_data` and `new_size` tell which of the two effects React runs.
  unfoldable pub update : Bool → Bool → Props → Chart → Chart
  unfolding set_data set_size
  update new_data new_size p c =
      let c' = if new_data then set_data p c else c in if new_size then set_size p c' else c'

  -- The component mounted with props `first` in a container, with the props of its last commit. An
  -- effect is left out only where what it depends on did not change.
  pub data Live (first : Props) (start : Chart) : Props → Chart → Type 0 where
    mounted : Live first start first (mount first start)
    committed :
        {p : Props} {c : Chart} (q : Props) (new_data new_size : Bool)
        → Live first start p c
        → (new_data ≡ false → q.values ≡ p.values)
        → (new_size ≡ false → (q.width ≡ p.width) × (q.height ≡ p.height))
        → Live first start q (update new_data new_size q c)
