-- ===== src/Core.antt =====
-- src/core/types.ts: the values that the components exchange.
use notify_hub.Base.{ℕ, Bool, Option, List, Text, ℤ}
use notify_hub.Base.Map.{Map}

pub data Priority : Type 0 where
  low default high urgent : Priority

-- A JavaScript value: metadata, request bodies and parsed JSON. Numbers are integers; an object is
-- its own properties in order.
mutual
  pub data Value : Type 0 where
    undefined : Value
    null : Value
    bool : Bool → Value
    num : ℤ → Value
    str : Text → Value
    arr : Items → Value
    obj : Fields → Value

  pub data Items : Type 0 where
    nil : Items
    cons : Value → Items → Items

  pub data Fields : Type 0 where
    end : Fields
    field : Text → Value → Fields → Fields

pub record Notification : Type 0 where
  pub title : Text
  pub message : Text
  pub priority : Option Priority
  pub tags : Option (List Text)
  pub metadata : Option Fields

pub record DeliveryResult : Type 0 where
  pub channel : Text
  pub ok : Bool
  pub error : Option Text
  pub attempts : ℕ
  pub duration_ms : ℤ

-- A TOKENS entry.
pub record Profile : Type 0 where
  pub name : Text
  pub token : Text
  pub default_channels : List Text

pub record ChannelInstance : Type 0 where
  pub id : Text
  pub label : Text
  pub type : Text
  pub enabled : Bool
  pub config : Map Text

pub record ProfileRecord : Type 0 where
  pub id : Text
  pub name : Text
  pub token : Text
  pub default_channels : List Text

pub record Retry : Type 0 where
  pub attempts : ℕ
  pub backoff_ms : ℕ

pub record AppConfig : Type 0 where
  pub port : ℕ
  pub redis_url : Text
  pub db_path : Text
  pub profiles : List Profile
  pub channels_enabled : List Text
  pub channel_config : Map (Map Text)
  pub retry : Retry

pub record DispatchJob : Type 0 where
  pub notification : Notification
  pub profile_id : Text
  pub profile_name : Option Text
  pub requested_channels : Option (List Text)
  pub dedup_key : Option Text

pub record DeliveryJob : Type 0 where
  pub notification : Notification
  pub channel : Text
  pub dispatch_job_id : Text
