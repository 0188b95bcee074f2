-- ===== src/Requests/Register.antt =====
-- The dialog for registering (client/gui/src/renderer/components/RegisterModal.tsx): its two screens,
-- and the button Register, which the window answers (client/gui/src/renderer/Main.tsx).
use anysphere_messaging.Common.{JsString, List, [], ◌∷◌, Option, none, some}

pub data RegisterScreen : Type 0 where
  welcome form : RegisterScreen

pub record RegisterState : Type 0 where
  pub screen : RegisterScreen
  pub access_key : JsString

abbrev pub open_register : RegisterState
open_register = record { screen = welcome; access_key = [] }

pub data RegisterAction : Type 0 where
  gets_started : RegisterAction
  types_key : JsString → RegisterAction

-- The welcome has a button, and the form has an input.
unfoldable pub act : RegisterAction → RegisterState → RegisterState
act gets_started s = elim s.screen [ welcome ↦ record s { screen = form } | form ↦ s ]
act (types_key value) s = elim s.screen [ welcome ↦ s | form ↦ record s { access_key = value } ]

unfoldable pub act_all : List RegisterAction → RegisterState → RegisterState
unfolding act
act_all [] s = s
act_all (a ∷ actions) s = act_all actions (act a s)

-- The button Register of the form: the key of the request that it makes.
unfoldable pub register : RegisterState → Option JsString
register r = elim r.screen [ welcome ↦ none | form ↦ some r.access_key ]
