-- ===== src/Entity.antt =====
-- An entity as the server sends it (`Entity.to_dict` of web/nasa_web/entities.py).
use nasa_cpp.Base.{Bool, true, false, List, Option, String}

pub data Kind : Type 0 where
  numeric binary enum : Kind

-- `e.kind === "numeric"`
abbrev pub is_numeric : Kind → Bool
is_numeric numeric = true
is_numeric _ = false

pub record Entity (R : Type 0) : Type 0 where
  pub id : String
  pub name : String
  pub platform : String
  pub category : String
  pub kind : Kind
  pub unit : Option String
  pub state_class : Option String
  pub options : List String
  pub min : Option R
  pub max : Option R
  pub step : Option R
  pub writable : Bool
  pub value : Option R
  pub text : Option String
  pub updated : Option R

pub record Status (R : Type 0) : Type 0 where
  pub mqtt : Bool
  pub read_only : Bool
  pub broker : Option String
  pub last_message : Option R
