-- ===== src/Window.antt =====
-- src/tuxpac/unpack.c, the window that decoded bytes go through on their way to the sink.
pub mod History
pub mod Fed
use bax_os_dev.Base.{
  ℕ, zero, suc, ◌+◌, ◌-◌, ◌%◌, ◌^◌, Bool, true, false, not, ◌&&◌, ◌||◌, List, [], ◌∷◌, ◌++◌, take,
  get_or, set, replicate, ltb, leb, ◌==◌, if◌then◌else◌, length,
}

-- `win`, `wsize`, `wpos`, `total` and `wstop`, with what the sink was given so far.
pub record Window : Type 0 where
  pub win : List ℕ
  pub wsize : ℕ
  pub wpos : ℕ
  pub total : ℕ
  pub wstop : Bool
  pub sunk : List ℕ

-- `wsink`: whether it takes a block, given what it took before.
abbrev pub Sink : Type 0
Sink = List ℕ → List ℕ → Bool

-- `window_open`, where `xalloc` found the memory.
unfoldable pub window_open : ℕ → Window
window_open size = record {
  win = replicate size 0;
  wsize = size;
  wpos = 0;
  total = 0;
  wstop = false;
  sunk = [];
}

-- `back`: the byte `d` back.
abbrev pub back_index : ℕ → ℕ → ℕ → ℕ
back_index wsize wpos d = if leb d wpos then wpos - d else wpos + wsize - d

unfoldable pub back : ℕ → Window → ℕ
back d w = get_or w.win (back_index w.wsize w.wpos d) 0

module _ (sink : Sink) where
  -- The sink is given a block, and the window starts again.
  unfoldable pub flush : Window → Window
  flush w = record w {
    wstop = w.wstop || not (sink w.sunk (take w.wsize w.win));
    wpos = 0;
    sunk = w.sunk ++ take w.wsize w.win;
  }

  -- `put`
  unfoldable pub put : ℕ → Window → Window
  put b w =
      let w' = record w {
        win = set w.win w.wpos b;
        wpos = w.wpos + 1;
        total = (w.total + 1) % 2 ^ 64;
      } in
      if w'.wpos == w'.wsize then flush w' else w'

  -- The loop of `copy`.
  unfoldable pub copy_from : ℕ → ℕ → Window → Window
  copy_from d zero w = w
  copy_from d (suc len) w = copy_from d len (put (back d w) w)

  -- `copy`: false is a distance past what there is.
  unfoldable pub copy : ℕ → ℕ → Window → Bool × Window
  copy d len w =
      if d == 0 || (ltb w.total d || ltb w.wsize d) then (false, w) else (true, copy_from d len w)

  -- `window_close`: what is left is handed over, unless the decoder failed or the sink stopped it.
  unfoldable pub window_close : Bool → Bool → Window → Bool × Window
  window_close ok bad w =
      let rest = take w.wpos w.win in
      let w' =
        if ok && (not w.wstop && ltb 0 w.wpos)
        then record w { wstop = not (sink w.sunk rest); sunk = w.sunk ++ rest }
        else w in
      (ok && (not w'.wstop && not bad), w')
