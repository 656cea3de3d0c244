-- ===== src/Link/Subscribe/Undo.antt =====
-- The undo of a subscription of which a send failed, and the end of a subscription, src/link/catch.rs.
use medius.Base.{List}
use medius.Types.Catch.{filter_key_order}
use medius.Link.Catch.Union.{effective-IsTable, IsTable}
use medius.Link.Subscribe.{CatchSub, filter_sets, reg_effective}

pub reg_effective-IsTable : (subs : List CatchSub) → IsTable (reg_effective subs)
unfolding reg_effective
reg_effective-IsTable subs = effective-IsTable (filter_sets subs)
