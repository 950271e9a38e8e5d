-- ===== src/DataAgent/Controlled.antt =====
-- The controlled statement of the data agent, `_sales_channel_comparison_sql`, and the objective of
-- a second attempt, `_repair_objective`, of backend/app/data_agent/service.py. A query runs within
-- one month, whose year and number are an argument.
use baa_system.Base.{
  Bool, not, ◌&&◌, ◌||◌, Option, none, some, List, [], ◌∷◌, String, if◌then◌else◌, ◌<+>◌, same_text,
  member,
}
use baa_system.DataAgent.Sql.{Libraries}
use baa_system.DataAgent.Candidate.{sales_terms, channel_terms, mentions}
use baa_system.DataAgent.Period.{MonthStart, month_start, current_end, previous_start, isoformat}

abbrev pub comparison_terms : List String
comparison_terms =
    "comparison" ∷ "compare" ∷ "previous_month" ∷ "previous period" ∷ "对比" ∷ "比较" ∷ "上月" ∷ "环比"
    ∷ "同比" ∷ []

-- `column` summed over the sales from `start` until `end`.
unfoldable pub conditional_sum : String → String → String → String → String
conditional_sum start end column name =
    "        SUM(CASE WHEN s.sale_date >= '" <+> start <+> "' AND s.sale_date < '" <+> end
    <+> "'\n                 THEN s." <+> column <+> " ELSE 0 END) AS " <+> name

-- The text of the statement, for the texts of its four days.
unfoldable pub comparison_sql : String → String → String → String → String
unfolding conditional_sum
comparison_sql current_start_text current_end_text previous_start_text previous_end_text =
    "WITH channel_sales AS (\n    SELECT\n        c.id AS channel_id,\n        c.channel_name,\n"
    <+> conditional_sum current_start_text current_end_text "total_amount" "current_sales_amount"
    <+> ",\n"
    <+> conditional_sum previous_start_text previous_end_text "total_amount" "previous_sales_amount"
    <+> ",\n"
    <+> conditional_sum current_start_text current_end_text "quantity" "current_sales_quantity"
    <+> ",\n"
    <+> conditional_sum previous_start_text previous_end_text "quantity" "previous_sales_quantity"
    <+> "\n    FROM biz_sales AS s\n    INNER JOIN biz_channels AS c ON s.channel_id = c.id\n"
    <+> "    WHERE s.sale_date >= '"
    <+> previous_start_text
    <+> "' AND s.sale_date < '"
    <+> current_end_text
    <+> "'\n    GROUP BY c.id, c.channel_name\n)\n"
    <+> "SELECT\n    channel_id,\n    channel_name,\n    current_sales_amount,\n"
    <+> "    previous_sales_amount,\n    current_sales_quantity,\n    previous_sales_quantity,\n"
    <+> "    ROUND(\n        (current_sales_amount - previous_sales_amount)\n"
    <+> "        / NULLIF(previous_sales_amount, 0) * 100,\n        2\n"
    <+> "    ) AS sales_change_rate_pct\nFROM channel_sales\nORDER BY current_sales_amount DESC"

unfoldable pub period_sql : MonthStart → String
unfolding comparison_sql current_end previous_start isoformat
period_sql current_start =
    comparison_sql (isoformat current_start) (isoformat (current_end current_start))
      (isoformat (previous_start current_start)) (isoformat current_start)

module _ {T : Type 0} (lib : Libraries T) where
  -- The month that the question names; a month without a year is one of this year, and without
  -- either it is the current month.
  unfoldable pub requested_month : MonthStart → String → MonthStart
  requested_month today normalized = elim (lib.search_year_month normalized) [
    | some (year, month) ↦ month_start year month
    | none ↦ elim (lib.search_month normalized) [
      | some month ↦ month_start today.year month
      | none ↦ month_start today.year today.month
    ]
  ]

  -- Is it a question that compares the sales of channels?
  unfoldable pub is_comparison : String → Bool
  unfolding mentions
  is_comparison normalized =
      mentions normalized sales_terms
      && mentions normalized channel_terms
      && mentions normalized comparison_terms

  unfoldable pub sales_channel_comparison_sql :
      MonthStart → String → String → List String → Option String
  unfolding requested_month is_comparison period_sql
  sales_channel_comparison_sql today objective dialect allowed_tables =
      if not (same_text dialect "mysql")
        || not (member "biz_sales" allowed_tables && member "biz_channels" allowed_tables)
      then none
      else if not (is_comparison (lib.lower objective))
      then none
      else some (period_sql (requested_month today (lib.lower objective)))

abbrev pub repair_objective : String → String
repair_objective objective =
    "Regenerate the SQL from the original objective below. The previous candidate "
    <+> "was either rejected by MySQL or did not match the requested business intent. "
    <+> "Use the requested metric and dimensions exactly. For sales by channel, query "
    <+> "biz_sales, use total_amount and quantity, and use channel_id or join "
    <+> "biz_channels for channel_name. For period comparisons, use explicit conditional "
    <+> "aggregation and GROUP BY every selected non-aggregate field. For inventory or "
    <+> "product requests, use their corresponding allowlisted tables.\n"
    <+> "Original objective:\n" <+> objective
