-- ===== src/Items/Models.antt =====
-- app/items/models.py: a row of the table items.
use platinum_gold_backend.Prelude.{Text, ℤ, Option}
use platinum_gold_backend.Items.Schemas.{DateTime}

pub record Item : Type 0 where
  pub id : ℤ
  pub game_id : ℤ
  pub name : Text
  pub description : Text
  pub quality : Option ℤ
  pub item_type : Option Text
  pub recharge_time : Option Text
  pub image_url : Text
  pub introduced_in_version : Option Text
  pub created_at : DateTime
  pub updated_at : DateTime
