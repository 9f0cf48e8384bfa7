-- ===== src/Config.antt =====
-- config/constants.go and the fixed part of config/defaults.go. An address is its 160-bit number, a
-- topic its 256-bit number.
use go_fourmeme.Base.{ℕ}

abbrev pub Address : Type 0
Address = ℕ

abbrev pub Hash : Type 0
Hash = ℕ

abbrev pub addr_token_manager2 : Address
addr_token_manager2 = 0x5c952063c7fc8610FFDB798152D69F0B9550762b

abbrev pub addr_token_manager_helper3 : Address
addr_token_manager_helper3 = 0xF251F83e40a78868FcfA3FA4599Dad6494E46034

abbrev pub addr_token_manager1 : Address
addr_token_manager1 = 0xEC4549caDcE5DA21Df6E6422d448034B5233bFbC

abbrev pub pancake_factory : Address
pancake_factory = 0xcA143Ce32Fe78f1f7019d7d551a6402fC5350c73

-- The constant of the source has 31 hexadecimal digits.
abbrev pub pancake_router : Address
pancake_router = 0x10ED43C718714eb63d5aA57df234750

abbrev pub wbnb : Address
wbnb = 0xbb4CdB9CBd36B01bD1cBaEBF2De08d9173bc095c

abbrev pub addr_usdt : Address
addr_usdt = 0x55d398326f99059fF775485246999027B3197955

abbrev pub addr_usd1 : Address
addr_usd1 = 0x8d0d000ee44948fc98c9b98a4fa4921476f08b0d

abbrev pub addr_zero : Address
addr_zero = 0

abbrev pub topic_transfer : Hash
topic_transfer = 0xddf252ad1be2c89b69c2b068fc378daa952ba7f163c4a11628f55a4df523b3ef

abbrev pub topic_ownership_transferred : Hash
topic_ownership_transferred = 0x8be0079c531659141344cd1fd0a4f28419497f9722a3daafe3b4186f6b6457e0

abbrev pub topic_create : Hash
topic_create = 0x396d5e902b675b032348d3d2e9517ee8f0c4a926603fbc075d3d282ff00cad20

abbrev pub topic_manager1_sell : Hash
topic_manager1_sell = 0x80d4e495cda89b31af98c8e977ff11f417bafcee26902a17a15be51830c47533

abbrev pub topic_manager1_buy : Hash
topic_manager1_buy = 0x00fe0e12b43090c1fc19a34aefa5cc138a4eeafc60ab800f855c730b3fb9480e

abbrev pub topic_manager2_sell : Hash
topic_manager2_sell = 0x0a5575b3648bae2210cee56bf33254cc1ddfbc7bf637c0af2ac18b14fb1bae19

abbrev pub topic_manager2_buy : Hash
topic_manager2_buy = 0x7db52723a3b2cdd6164364b3b766e65e540d7be48ffa89582956d8eaebe62942

abbrev pub pair_created_topic : Hash
pair_created_topic = 0xe1fffcc4923d04b559f4d29a8bfc6cda04eb5b0d3c460751c2402c5c5cc9109c

abbrev pub mint_topic : Hash
mint_topic = 0x0d3648bd0f6ba80134a33ba9275ac585d9d315f0ad8355cddefde31afa28d0e9

abbrev pub deposit_confirm_topic : Hash
deposit_confirm_topic = 0x0a5575b3648bae2210cee56bf33254cc1ddfbc7bf637c0af2ac18b14fb1bae19

-- `BSCChain.ChainID`.
abbrev pub chain_id : ℕ
chain_id = 56
