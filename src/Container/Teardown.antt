-- ===== src/Container/Teardown.antt =====
-- core/mm1-node/src/runtime/container.rs: what `run` does after its loop. The subnet is unregistered, the
-- system messages that are left are answered, and the main fork ends.
use mm.Shared.{List, [], ◌∷◌, ◌++◌, Option, none, some, Bool, if◌then◌else◌}
use mm.Container.{
  SysLink, connect, disconnect, SysWatch, down, SysMsg, kill, on_link, on_watch, fork_done,
  Container, Effect, sent, Ended, is_ok, sys_link_exit_message, sys_watch_down_message, entry,
  end_fork,
}
use mm.Container.Sets.{Address}

-- A fork that is not known was never added: its end is dropped.
unfoldable pub drain_fork : Bool → Container → Address → Container × List Effect
drain_fork normal_exit c fork = elim (entry c fork) [
  | none ↦ (c, [])
  | some e ↦ end_fork normal_exit c fork e
]

unfoldable pub drain_one : Bool → Container → SysMsg → Container × List Effect
unfolding drain_fork
drain_one normal_exit c kill = (c, [])
drain_one normal_exit c (fork_done fork) = drain_fork normal_exit c fork
drain_one normal_exit c (on_link (connect sender receiver)) =
    (c, sent sender (sys_link_exit_message normal_exit receiver sender) ∷ [])
drain_one normal_exit c (on_link (disconnect sender receiver)) = (c, [])
drain_one normal_exit c (on_link (SysLink.exit sender receiver reason)) = (c, [])
drain_one normal_exit c (on_watch (SysWatch.watch sender receiver ref)) =
    (c, sent sender (sys_watch_down_message normal_exit receiver sender) ∷ [])
drain_one normal_exit c (on_watch (SysWatch.unwatch sender receiver ref)) = (c, [])
drain_one normal_exit c (on_watch (down sender receiver reason)) = (c, [])

unfoldable pub drain : Bool → Container → List SysMsg → Container × List Effect
unfolding drain_one
drain normal_exit c [] = (c, [])
drain normal_exit c (message ∷ r) =
    let (c', effects) = drain_one normal_exit c message in
    let (c'', more) = drain normal_exit c' r in (c'', effects ++ more)

-- `none` where `assert!(unregistered)` or the `expect` of the main entry panics.
unfoldable pub finish : Ended → Bool → Container → List SysMsg → Option (List Effect)
unfolding drain is_ok
finish exit_reason unregistered c messages =
    let (c', effects) = drain (is_ok exit_reason) c messages in
    if unregistered
    then elim (entry c' c'.main) [
      | none ↦ none
      | some e ↦ some (effects ++ (end_fork (is_ok exit_reason) c' c'.main e).1)
    ]
    else none
