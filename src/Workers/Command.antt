-- ===== src/Workers/Command.antt =====
-- `_build_command` of src/worker_manager.py: the command that runs inside the container. The payload
-- is any JSON value; `str` is Python's text of a value.
use tacktcix.Prelude.{String, Bool, true, false, ◌==◌, string_eq, if◌then◌else◌, not}
use tacktcix.Prelude.Int.{is_zero}
use tacktcix.Prelude.Json.{
  Json, null, bool, number, text, array, object, Items, nil, cons, Members, end, member,
}
use tacktcix.Prelude.Outcome.{Outcome, ok, raise, type_error, attribute_error}
use tacktcix.Prelude.Text.{◌+ₛ◌}

-- `bool(x)`
unfoldable pub truthy : Json → Bool
truthy null = false
truthy (bool b) = b
truthy (number n) = not (is_zero n)
truthy (text s) = not (s == "")
truthy (array nil) = false
truthy (array (cons x rest)) = true
truthy (object end) = false
truthy (object (member k v rest)) = true

-- `payload.get(key, default)` of a JSON object.
unfoldable pub get_member : String → Json → Members → Json
get_member key default end = default
get_member key default (member k v rest) = if key == k then v else get_member key default rest

module _ (str : Json → String) where
  -- `' '.join(str(a) for a in args)`
  join_items : Items → String
  join_items nil = ""
  join_items (cons x nil) = str x
  join_items (cons x (cons y rest)) = str x +ₛ " " +ₛ join_items (cons y rest)

  -- `f"{cmd} {...}"` when the arguments are a list that is not empty.
  with_args : Json → Json → Json
  unfolding join_items
  with_args cmd (array (cons x rest)) = text (str cmd +ₛ " " +ₛ join_items (cons x rest))
  with_args cmd args = cmd

-- `" && ".join(parts)`: only texts can be joined.
join_parts : Json → Json → Outcome Json
unfolding truthy
join_parts (text entrypoint) (text script) =
    ok (text (if script == "" then entrypoint else entrypoint +ₛ " && " +ₛ script))
join_parts (text entrypoint) script =
    if truthy script then raise type_error else ok (text entrypoint)
join_parts entrypoint script = raise type_error

unfoldable pub build_command : (str : Json → String) → Json → Outcome Json
unfolding truthy get_member with_args join_parts
build_command str (object pl) =
    let script = get_member "script" (text "") pl in
    let entrypoint = get_member "entrypoint" (text "") pl in
    let cmd =
      with_args str (get_member "command" (get_member "cmd" (text "") pl) pl)
        (get_member "args" (array nil) pl) in
    if truthy entrypoint
    then join_parts entrypoint script
    else if truthy script
    then ok script
    else if truthy cmd
    then ok cmd
    else ok (text "echo 'No command specified'")
build_command str pl = raise attribute_error
